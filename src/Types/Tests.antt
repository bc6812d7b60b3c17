-- ===== src/Types/Tests.antt =====
-- Conversions and merges of values.
use zordon.Base.{
  string_le, Option, none, some, ◌≡◌, refl, true, false, List, [], ◌∷◌, none, some, codes, equal,
  lookup,
}
use zordon.Types.Parse.{
  Expression, keyword, call, object_cons, other, no_argument, one_more, no_item, item, parsed,
  parse_type, parse_word, typed_call, add_item, with_default, insert_attribute,
}
use zordon.Types.Parsed.{parse-Typed}
use zordon.Types.Convert.{
  convert_number, already_set, value, failed, ZType, string, number, map_of, object, no_more,
  attribute, cty, convert, convert_attrs, convert_object, convert_string, left_out, undeclared,
  declares,
}
use zordon.Types.Keys.{Added, set_keys, add_entries-Added}
use zordon.Types.Typed.{Typed}
use zordon.Types.Merge.{add_entries, Part, merge, merge_one, one_loop, convert_got}
use zordon.Types.Single.{Single, set_parts, merge_one-Single}
use zordon.Types.Texts.{
  Val, null_v, bool_v, string_v, number_v, map_v, object_v, no_field, one_field, type_of, view,
  texts, texts-IsLawful,
}

-- object({ host = string, port = optional(number, 8) })
abbrev server : ZType texts
server = object (
    attribute (codes "host") string false none
      (attribute (codes "port") number true (some (number_v 8)) no_more))

abbrev given : Val
given = object_v (one_field (codes "host") (bool_v true) no_field)

convert-given :
    convert texts server given []
    ≡ value (
        object_v (
          one_field
            (codes "host")
            (string_v (codes "true"))
            (one_field (codes "port") (number_v 8) no_field)))
unfolding convert convert_attrs convert_object convert_string left_out undeclared declares lookup
    view equal cty
convert-given = refl

abbrev parts : List (Part texts)
parts =
    record { given = map_v (type_of given) (one_field (codes "a") given no_field); at = codes "x" }
    ∷ record { given = null_v []; at = codes "y" }
    ∷ record {
      given = map_v (type_of given) (one_field (codes "b") given no_field);
      at = codes "z";
    }
    ∷ []

-- object({ path = optional(string, "/"), port = optional(number, "8") })
abbrev site : ZType texts
site = object (
    attribute (codes "path") string true (some (string_v (codes "/")))
      (attribute (codes "port") number true (some (number_v 8)) no_more))

-- the value of a quoted text; nothing else is a constant
abbrev constant : Expression → Option Val
constant (other text) = some (string_v text)
constant _ = none

abbrev written : Expression
written = call (codes "map") (
    one_more
      (call (codes "object") (
        one_more
          (object_cons (
            item (keyword (codes "port"))
              (call (codes "optional")
                (one_more (keyword (codes "number")) (one_more (other (codes "8")) no_argument)))
              (item (keyword (codes "path"))
                (call (codes "optional")
                  (one_more (keyword (codes "string")) (one_more (other (codes "/")) no_argument)))
                no_item)))
          no_argument))
      no_argument)

parse-written : parse_type texts constant written ≡ parsed (map_of site)
unfolding parse_type parse_word typed_call add_item with_default insert_attribute convert
    convert_number convert_string view string_le equal declares
parse-written = refl

parse-Typed_example :
    Typed texts texts-IsLawful (cty texts (map_of site)) (convert texts (map_of site) given [])
    × Typed texts texts-IsLawful (cty texts (map_of site)) (merge texts (map_of site) parts)
parse-Typed_example =
    parse-Typed texts texts-IsLawful constant written (map_of site) parse-written given parts

merge_one-Single_example :
    merge_one texts server parts ≡ Single texts server (set_parts texts parts)
merge_one-Single_example = merge_one-Single texts server parts

merge_one-twice : merge_one texts server parts ≡ failed (already_set (codes "z") (codes "x"))
unfolding merge_one one_loop convert_got view
merge_one-twice = refl

add_entries-Added_example :
    Added texts
      (set_keys texts ((codes "a", number_v 1) ∷ (codes "b", null_v []) ∷ []))
      []
      (add_entries texts (codes "x") ((codes "a", number_v 1) ∷ (codes "b", null_v []) ∷ []) [])
add_entries-Added_example =
    add_entries-Added texts (codes "x") ((codes "a", number_v 1) ∷ (codes "b", null_v []) ∷ []) []

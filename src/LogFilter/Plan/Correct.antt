-- ===== src/LogFilter/Plan/Correct.antt =====
-- plan.go, `compileBool` and logfilter.go, `Compile`: predicates against the meaning of expressions.
use zordon.Base.{
  ℕ, zero, suc, ◌≤◌, ◌≡◌, ◌⊎◌, inl, inr, refl, sym, ap, ap₂, ◌∙◌, Bool, true, false, not, ◌&&◌,
  ◌||◌, none, some, arith, Bool-cases, Bytes, codes, equal, equal_iff, equal_refl,
}
use zordon.LogFilter.Ast.{Node, bin_node, not_node, call_node, bool_node, Nodes, nil, cons, append}
use zordon.LogFilter.Deps.{Deps, IsLawful}
use zordon.LogFilter.Plan.Leaves.{Decides, compile_cmp-Decides, compile_bool_call-Decides}
use zordon.LogFilter.Plan.Meaning.{eval, plain_anchors}
use zordon.LogFilter.Plan.{
  collect, is_logic_op, compile_kids, join_kids, compile_bool, height, all_blank,
}
use zordon.LogFilter.Parser.{parse}
use zordon.LogFilter.Predicate.Order.{match_all-sort_by_cost, match_any-sort_by_cost}
use zordon.LogFilter.Predicate.{
  Line, Predicate, Predicates, not_pred, const_pred, match, match_all, match_any, Filter, drop_line,
}
use zordon.LogFilter.Result.{Result, ok, ◌>>=◌, Ensures, holds, failed, Ensures-if, Ensures-bind}
use Prim.Native.Nat.{max}

-- a node at most so high, whose patterns have plain anchors
abbrev Fits : ℕ → Node → Type 0
Fits f n = (height n ≤ f) × (plain_anchors n ≡ true)

abbrev AllFit : ℕ → Nodes → Type 0
AllFit f nil = Unit
AllFit f (cons n ns) = Fits f n × AllFit f ns

AllFit-append : (f : ℕ) (xs ys : Nodes) → AllFit f xs → AllFit f ys → AllFit f (append xs ys)
unfolding append
AllFit-append f nil ys a b = b
AllFit-append f (cons x xs) ys (h, a) b = (h, AllFit-append f xs ys a b)

Fits-parts :
    (f : ℕ) (op : Bytes) (a b : Node)
    → max (height a) (height b) ≤ f
    → plain_anchors (bin_node op a b) ≡ true
    → Fits f a × Fits f b
unfolding plain_anchors
Fits-parts f op a b h k = ((omega arith, ground arith), (omega arith, ground arith))

collect-AllFit : (f : ℕ) (op : Bytes) (n : Node) → Fits f n → AllFit f (collect op n)
unfolding collect height
collect-AllFit f op (bin_node o l r) (h, k) = elim (Bool-cases (equal o op)) [
  | inl e ↦
      let (u, v) = Fits-parts f o l r (omega arith) k in
      rw e (AllFit-append f _ _ (collect-AllFit f op l u) (collect-AllFit f op r v))
  | inr e ↦ rw e ((h, k), tt)
]
collect-AllFit f op _ h = (h, tt)

collect_bin-AllFit :
    (f : ℕ) (op : Bytes) (a b : Node)
    → max (height a) (height b) ≤ f
    → plain_anchors (bin_node op a b) ≡ true
    → AllFit f (collect op (bin_node op a b))
unfolding collect
collect_bin-AllFit f op a b h k =
    let (u, v) = Fits-parts f op a b h k in
    rw (equal_refl op) (
      AllFit-append f (collect op a) (collect op b) (collect-AllFit f op a u)
        (collect-AllFit f op b v))

logic_word : (op : Bytes) → is_logic_op op ≡ true → (op ≡ codes "and") ⊎ (op ≡ codes "or")
logic_word op h = ground (arith, equal_iff op (codes "and"), equal_iff op (codes "or"))

not_logic :
    (op : Bytes)
    → is_logic_op op ≡ false
    → (equal op (codes "and") ≡ false) × (equal op (codes "or") ≡ false)
not_logic op h = ground arith

height_pos : (n : Node) → 1 ≤ height n
unfolding height
height_pos (bin_node op a b) = omega arith
height_pos (not_node x) = omega arith
height_pos _ = omega arith

module _ (d : Deps) (law : IsLawful d) where
  module _ (l : Line) where
    eval_all : Nodes → Bool
    eval_all nil = true
    eval_all (cons n ns) = eval d l n && eval_all ns

    eval_any : Nodes → Bool
    eval_any nil = false
    eval_any (cons n ns) = eval d l n || eval_any ns

    eval_all-append : (xs ys : Nodes) → eval_all (append xs ys) ≡ (eval_all xs && eval_all ys)
    unfolding append eval_all
    eval_all-append nil ys = refl
    eval_all-append (cons x xs) ys = ground (arith, eval_all-append xs ys)

    eval_any-append : (xs ys : Nodes) → eval_any (append xs ys) ≡ (eval_any xs || eval_any ys)
    unfolding append eval_any
    eval_any-append nil ys = refl
    eval_any-append (cons x xs) ys = ground (arith, eval_any-append xs ys)

    eval-and : (a b : Node) → eval d l (bin_node (codes "and") a b) ≡ (eval d l a && eval d l b)
    unfolding eval equal
    eval-and a b = refl

    eval-or : (a b : Node) → eval d l (bin_node (codes "or") a b) ≡ (eval d l a || eval d l b)
    unfolding eval equal
    eval-or a b = refl

    -- An `and` means the conjunction of the operands that `collect` finds under it.
    eval_all-collect : (n : Node) → eval_all (collect (codes "and") n) ≡ eval d l n
    unfolding collect eval_all
    eval_all-collect (bin_node o a b) = elim (Bool-cases (equal o (codes "and"))) [
      | inl e ↦ rw e (
          eval_all-append (collect (codes "and") a) (collect (codes "and") b)
          ∙ ap₂ ◌&&◌ (eval_all-collect a) (eval_all-collect b)
          ∙ sym (eval-and a b)
          ∙ ap (λ w. eval d l (bin_node w a b)) (sym ((equal_iff o (codes "and")).0 e)))
      | inr e ↦ rw e (ground arith)
    ]
    eval_all-collect _ = ground arith

    -- An `or` means the disjunction of the operands that `collect` finds under it.
    eval_any-collect : (n : Node) → eval_any (collect (codes "or") n) ≡ eval d l n
    unfolding collect eval_any
    eval_any-collect (bin_node o a b) = elim (Bool-cases (equal o (codes "or"))) [
      | inl e ↦ rw e (
          eval_any-append (collect (codes "or") a) (collect (codes "or") b)
          ∙ ap₂ ◌||◌ (eval_any-collect a) (eval_any-collect b)
          ∙ sym (eval-or a b)
          ∙ ap (λ w. eval d l (bin_node w a b)) (sym ((equal_iff o (codes "or")).0 e)))
      | inr e ↦ rw e (ground arith)
    ]
    eval_any-collect _ = ground arith

  compile_kids-Ensures :
      (f : ℕ) (call : Node → Result (Predicate d))
      → ((n : Node) → Fits f n → Decides d law (λ l. eval d l n) (call n))
      → (ns : Nodes) → AllFit f ns
      → Ensures
          (λ ks.
            (l : Line) → (match_all d l ks ≡ eval_all l ns) × (match_any d l ks ≡ eval_any l ns))
          (compile_kids d call ns)
  unfolding compile_kids match eval_all eval_any
  compile_kids-Ensures f call ih nil h = holds (λ l. (refl, refl))
  compile_kids-Ensures f call ih (cons n ns) (h, t) = Ensures-bind (ih n h) λ k p.
      Ensures-bind (compile_kids-Ensures f call ih ns t) λ ks q. holds λ l. ground (arith, p l, q l)

  match-join_kids :
      (l : Line) (ks : Predicates d)
      → (match d l (join_kids d (codes "and") ks) ≡ match_all d l ks)
        × (match d l (join_kids d (codes "or") ks) ≡ match_any d l ks)
  unfolding join_kids match equal
  match-join_kids l ks = (match_all-sort_by_cost d l ks, match_any-sort_by_cost d l ks)

  -- `compileAndOr`, on operands that compile to what they mean
  compile_logic-Decides :
      (f : ℕ) (call : Node → Result (Predicate d)) (op : Bytes) (n : Node)
      → ((n : Node) → Fits f n → Decides d law (λ l. eval d l n) (call n))
      → AllFit f (collect op n)
      → is_logic_op op ≡ true
      → Decides d law
          (λ l. eval d l n)
          (compile_kids d call (collect op n) >>= λ kids. ok (join_kids d op kids))
  compile_logic-Decides f call op n ih h logic =
      Ensures-bind (compile_kids-Ensures f call ih (collect op n) h)
        λ ks q. holds λ l. truth l op ks (logic_word op logic) (q l).0 (q l).1
    where
      truth :
          (l : Line) (op : Bytes) (ks : Predicates d)
          → (op ≡ codes "and") ⊎ (op ≡ codes "or")
          → match_all d l ks ≡ eval_all l (collect op n)
          → match_any d l ks ≡ eval_any l (collect op n)
          → match d l (join_kids d op ks) ≡ eval d l n
      truth l op ks (inl e) p q =
          rw e ((match-join_kids l ks).0 ∙ (rw e at p) ∙ eval_all-collect l n)
      truth l op ks (inr e) p q =
          rw e ((match-join_kids l ks).1 ∙ (rw e at q) ∙ eval_any-collect l n)

  pub compile_bool-Decides :
      (f : ℕ) (n : Node) → Fits f n → Decides d law (λ l. eval d l n) (compile_bool d f n)
  unfolding compile_bool height plain_anchors
  compile_bool-Decides zero n (h, k) = absurd (omega (arith, height_pos n))
  compile_bool-Decides (suc f) (bin_node op a b) (h, k) =
      Ensures-if (is_logic_op op)
        (λ e.
          compile_logic-Decides f (λ n. compile_bool d f n) op (bin_node op a b)
            (compile_bool-Decides f) (collect_bin-AllFit f op a b (omega arith) k) e)
        (λ e.
          let (u, v) = not_logic op e in
          unfold eval in rw (u, v) (compile_cmp-Decides d law op a b))
  compile_bool-Decides (suc f) (not_node x) (h, k) =
      Ensures-bind (compile_bool-Decides f x (omega arith, k))
        λ p m. holds {value = not_pred p} λ l. unfold eval match in ap not (m l)
  compile_bool-Decides (suc f) (call_node name args) (h, k) =
      unfold eval in compile_bool_call-Decides d law name args k
  compile_bool-Decides (suc f) (bool_node b) (h, k) =
      holds {value = const_pred b} λ l. unfold eval match in refl
  compile_bool-Decides (suc f) _ h = failed

  -- what a filter should drop: nothing under the nil filter, else the lines that make the
  -- expression true
  abbrev pub Drops : Bytes → Filter d → Type 0
  Drops src none = all_blank src ≡ true
  Drops src (some p) =
      (all_blank src ≡ false)
      × ((n : Node) × (parse src ≡ ok n) × ((l : Line) → drop_line d (some p) l ≡ eval d l n))

-- ===== src/LogFilter/Ast.antt =====
-- internal/logfilter/parse.go: the tokens of the lexer and the nodes of the syntax tree.
use zordon.Base.{ℕ, suc, Bool, ℤ, Bytes}

-- `tokKind`
pub data TokKind : Type 0 where
  eof ident string int float op keyword : TokKind

-- `token`
pub record Token : Type 0 where
  pub kind : TokKind
  pub text : Bytes
  pub col : ℕ

-- `node` and its variants; an argument list is a list of nodes. A float literal keeps its text,
-- since `strconv.ParseFloat` is a parameter of the model (`Deps`).
mutual
  pub data Node : Type 0 where
    bin_node : Bytes → Node → Node → Node
    not_node : Node → Node
    call_node : Bytes → Nodes → Node
    ident_node : Bytes → Node
    str_node : Bytes → Node
    int_node : ℤ → Node
    float_node : Bytes → Node
    bool_node : Bool → Node

  pub data Nodes : Type 0 where
    nil : Nodes
    cons : Node → Nodes → Nodes

-- `append(call.args, arg)`
unfoldable pub snoc : Nodes → Node → Nodes
snoc nil a = cons a nil
snoc (cons x xs) a = cons x (snoc xs a)

-- `len(args)`
abbrev pub count : Nodes → ℕ
count nil = 0
count (cons x xs) = suc (count xs)

unfoldable pub append : Nodes → Nodes → Nodes
append nil ys = ys
append (cons x xs) ys = cons x (append xs ys)

-- ===== src/Saving/Tree.antt =====
-- JSON values as trees, which show that the library's laws can be met.
use Prim.Native.String.{String}
use text.Mathlib.Text.{◌==◌}
use text.Mathlib.TextPositions.{eq_refl}
use server_communication.Prelude.{
  ℕ, ◌^◌, ◌≡◌, refl, Bool, true, false, List, [], ◌∷◌, Option, none, some, ltb, if◌then◌else◌,
  arith,
}
use server_communication.Prelude.Int.{ℤ, pos, negsuc, IsS32}
use server_communication.Saving.Json.{Json, IsJson}

mutual
  pub data Tree : Type 0 where
    empty : Tree
    number : ℤ → Tree
    string : List ℕ → Tree
    arr : Trees → Tree
    obj : Fields → Tree

  pub data Trees : Type 0 where
    nil : Trees
    cons : Tree → Trees → Trees

  pub data Fields : Type 0 where
    end : Fields
    field : String → Tree → Fields → Fields

abbrev of_list : List Tree → Trees
of_list [] = nil
of_list (t ∷ ts) = cons t (of_list ts)

abbrev to_list : Trees → List Tree
to_list nil = []
to_list (cons t ts) = t ∷ to_list ts

abbrev entries : Tree → List Tree
entries (arr ts) = to_list ts
entries _ = []

abbrev fields_of : Tree → Fields
fields_of (obj fs) = fs
fields_of _ = end

abbrev member : String → Fields → Tree
member k end = empty
member k (field j t fs) = if j == k then t else member k fs

abbrev has_member : String → Fields → Bool
has_member k end = false
has_member k (field j t fs) = if j == k then true else has_member k fs

abbrev tree_int : Tree → Option ℤ
tree_int (number (pos n)) = if ltb n (2 ^ 31) then some (pos n) else none
tree_int (number (negsuc n)) = if ltb n (2 ^ 31) then some (negsuc n) else none
tree_int empty = some (pos 0)
tree_int _ = none

abbrev tree_uint : Tree → Option ℕ
tree_uint (number (pos n)) = if ltb n (2 ^ 32) then some n else none
tree_uint empty = some 0
tree_uint _ = none

abbrev tree_text : Tree → Option (List ℕ)
tree_text (string s) = some s
tree_text _ = none

abbrev pub trees : Json
trees = record {
  Value = Tree;
  File = Option Tree;
  null = empty;
  num = number;
  text = string;
  array = λ l. arr (of_list l);
  items = entries;
  get = λ k t. member k (fields_of t);
  put = λ k x t. obj (field k x (fields_of t));
  is_member = λ k t. has_member k (fields_of t);
  as_int = tree_int;
  as_uint = tree_uint;
  as_text = tree_text;
  write = some;
  parse = λ f. f;
  empty_list = λ t. some (obj (field t (arr nil) end));
}

to_list-of_list : (l : List Tree) → to_list (of_list l) ≡ l
to_list-of_list [] = refl
to_list-of_list (t ∷ ts) = rw (to_list-of_list ts) refl

tree_int-number : (z : ℤ) → IsS32 z → tree_int (number z) ≡ some z
tree_int-number (pos n) h = ground arith
tree_int-number (negsuc n) h = ground arith

pub trees-IsJson : IsJson trees
trees-IsJson = record {
  get-put = λ j k x v. refl;
  get-null = λ k. refl;
  is_member-put = λ k x v. rw (eq_refl k) refl;
  items-array = to_list-of_list;
  items-null = refl;
  as_int-num = tree_int-number;
  as_int-num_big = λ n h. ground arith;
  as_uint-num = λ n h. ground arith;
  as_uint-num_negative = λ n. refl;
  as_text-text = λ s. refl;
  parse-write = λ v. refl;
  parse-empty_list = λ t. refl;
}

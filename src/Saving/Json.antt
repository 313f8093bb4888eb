-- ===== src/Saving/Json.antt =====
-- The JSON library, as far as src/TaskRestore.cpp calls it: values, files, and what the library's
-- documentation says of them. An access that the library answers by an exception gives none.
use Prim.Native.String.{String}
use text.Mathlib.Text.{◌==◌}
use server_communication.Prelude.{
  ℕ, ◌^◌, ◌≤◌, ◌<◌, ◌≡◌, Bool, true, List, [], Option, none, some, if◌then◌else◌,
}
use server_communication.Prelude.Int.{ℤ, pos, negsuc, IsS32}

-- `Json::Value`; `get k v` and `put k x v` are `v[k]` read and assigned, `items` the entries of an
-- array, `as_text` is `asCString`. `File` is what the writer makes and the reader parses, `empty_list t`
-- the text `{"t": []}`.
pub record Json : Type 1 where
  pub Value : Type 0
  pub File : Type 0
  pub null : Value
  pub num : ℤ → Value
  pub text : List ℕ → Value
  pub array : List Value → Value
  pub items : Value → List Value
  pub get : String → Value → Value
  pub put : String → Value → Value → Value
  pub is_member : String → Value → Bool
  pub as_int : Value → Option ℤ
  pub as_uint : Value → Option ℕ
  pub as_text : Value → Option (List ℕ)
  pub write : Value → File
  pub parse : File → Option Value
  pub empty_list : String → File

-- A number is read by `asInt` and `asUInt` where it lies in the type's range.
-- `get-put` is used of null and of objects alone, `parse-write` of objects, arrays and numbers alone: the
-- library throws on a member of another value, and its writer replaces bytes that are not UTF-8.
pub record IsJson (J : Json) : Type 0 where
  pub get-put :
      (j k : String) (x v : J.Value) → J.get j (J.put k x v) ≡ (if k == j then x else J.get j v)
  pub get-null : (k : String) → J.get k J.null ≡ J.null
  pub is_member-put : (k : String) (x v : J.Value) → J.is_member k (J.put k x v) ≡ true
  pub items-array : (l : List J.Value) → J.items (J.array l) ≡ l
  pub items-null : J.items J.null ≡ []
  pub as_int-num : (z : ℤ) → IsS32 z → J.as_int (J.num z) ≡ some z
  pub as_int-num_big : (n : ℕ) → 2 ^ 31 ≤ n → J.as_int (J.num (pos n)) ≡ none
  pub as_uint-num : (n : ℕ) → n < 2 ^ 32 → J.as_uint (J.num (pos n)) ≡ some n
  pub as_uint-num_negative : (n : ℕ) → J.as_uint (J.num (negsuc n)) ≡ none
  pub as_text-text : (s : List ℕ) → J.as_text (J.text s) ≡ some s
  pub parse-write : (v : J.Value) → J.parse (J.write v) ≡ some v
  pub parse-empty_list :
      (t : String) → J.parse (J.empty_list t) ≡ some (J.put t (J.array []) J.null)

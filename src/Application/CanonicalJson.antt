-- ===== src/Application/CanonicalJson.antt =====
-- Deterministic JSON: src/application/canonical-json.ts. `JSON.stringify` is modelled for the values that
-- reach it: objects, arrays, texts and `null`; members that are `undefined` are absent.
use Prim.Native.Char.{Char, char, code}
use Prim.Native.String
use Prim.Native.String.{compare}
use Prim.Native.Nat.{Ordering}
use jungle_challenge.Common.{
  ℕ, ◌/◌, ◌%◌, Bool, true, false, String, ltb, ◌==◌, nat_eq, if◌then◌else◌,
}

mutual
  pub data Json : Type 0 where
    null : Json
    text : String → Json
    array : Items → Json
    object : Members → Json

  pub data Items : Type 0 where
    end : Items
    item : Json → Items → Items

  pub data Members : Type 0 where
    nil : Members
    member : String → Json → Members → Members

infixr 65 ◌<>◌
abbrev pub ◌<>◌ : String → String → String
s <> t = String.◌++◌ s t

abbrev character : Char → String
character c = String.◌∷◌ c String.[]

-- A hexadecimal digit.
abbrev hex_digit : ℕ → String
hex_digit n =
    if ltb n 8
    then (if ltb n 4
        then (if ltb n 2 then (if ltb n 1 then "0" else "1") else (if ltb n 3 then "2" else "3"))
        else (if ltb n 6 then (if ltb n 5 then "4" else "5") else (if ltb n 7 then "6" else "7")))
    else (if ltb n 12
        then (if ltb n 10 then (if ltb n 9 then "8" else "9") else (if ltb n 11 then "a" else "b"))
        else (if ltb n 14
            then (if ltb n 13 then "c" else "d")
            else (if ltb n 15 then "e" else "f")))

abbrev backslash : String
backslash = character (char 92 tt)

abbrev double_quote : String
double_quote = character (char 34 tt)

-- How `JSON.stringify` writes one character of a text.
abbrev escape : Char → String
escape c =
    let n = code c in
    if n == 34
    then backslash <> double_quote
    else (if n == 92
        then backslash <> backslash
        else (if n == 8
            then backslash <> "b"
            else (if n == 9
                then backslash <> "t"
                else (if n == 10
                    then backslash <> "n"
                    else (if n == 12
                        then backslash <> "f"
                        else (if n == 13
                            then backslash <> "r"
                            else (if ltb n 32
                                then backslash <> "u00" <> hex_digit (n / 16) <> hex_digit (n % 16)
                                else character c)))))))

unfoldable pub escape_text : String → String
escape_text String.[] = ""
escape_text (String.◌∷◌ c s) = escape c <> escape_text s

unfoldable pub quote : String → String
unfolding escape_text
quote s = double_quote <> escape_text s <> double_quote

abbrev key_lt : String → String → Bool
key_lt s t = elim (compare s t) [ Ordering.lt ↦ true | _ ↦ false ]

-- A member takes its place before the first key that is larger.
abbrev insert_member : String → Json → Members → Members
insert_member k v nil = member k v nil
insert_member k v (member j w ms) =
    if key_lt k j then member k v (member j w ms) else member j w (insert_member k v ms)

unfoldable mutual
  pub sort_deep : Json → Json
  sort_deep null = null
  sort_deep (text s) = text s
  sort_deep (array xs) = array (sort_items xs)
  sort_deep (object ms) = object (sort_members ms)

  pub sort_items : Items → Items
  sort_items end = end
  sort_items (item x xs) = item (sort_deep x) (sort_items xs)

  pub sort_members : Members → Members
  sort_members nil = nil
  sort_members (member k v ms) = insert_member k (sort_deep v) (sort_members ms)

unfoldable mutual
  pub stringify : Json → String
  stringify null = "null"
  stringify (text s) = quote s
  stringify (array xs) = "[" <> stringify_items xs <> "]"
  stringify (object ms) = "{" <> stringify_members ms <> "}"

  pub stringify_items : Items → String
  stringify_items end = ""
  stringify_items (item x end) = stringify x
  stringify_items (item x (item y xs)) = stringify x <> "," <> stringify_items (item y xs)

  pub stringify_members : Members → String
  stringify_members nil = ""
  stringify_members (member k v nil) = quote k <> ":" <> stringify v
  stringify_members (member k v (member j w ms)) =
      quote k <> ":" <> stringify v <> "," <> stringify_members (member j w ms)

unfoldable pub canonical_json : Json → String
canonical_json value = stringify (sort_deep value)

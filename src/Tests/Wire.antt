-- ===== src/Tests/Wire.antt =====
-- A service that keeps records, behind a fetcher: three texts and a flag go over the wire.
use Prim.Native.Char.{Char, code}
use serving_agent.Common.{Bool, true, false, String, ◌≡◌, refl, List, [], ◌∷◌, ◌==◌, if◌then◌else◌}
use text.Mathlib.TextBridge.{to_list, of_list, to_list-of_list, of_list-to_list}

-- A list of characters in front of others: each has a mark before it, and another mark ends it.
abbrev pub quote : List Char → List Char → List Char
quote [] rest = "." ∷ "." ∷ rest
quote (c ∷ cs) rest = "-" ∷ c ∷ quote cs rest

abbrev pub unquote : List Char → List Char × List Char
unquote (mark ∷ c ∷ cs) =
    let (first, rest) = unquote cs in if code mark == 45 then (c ∷ first, rest) else ([], cs)
unquote _ = ([], [])

unquote-quote : (cs rest : List Char) → unquote (quote cs rest) ≡ (cs, rest)
unquote-quote [] rest = refl
unquote-quote (c ∷ cs) rest = rw (unquote-quote cs rest) refl

-- A flag is a character after the texts.
abbrev pub raised : Bool → List Char
raised true = "-" ∷ []
raised false = []

abbrev pub is_raised : List Char → Bool
is_raised [] = false
is_raised (c ∷ cs) = true

is_raised_lem : (flag : Bool) → is_raised (raised flag) ≡ flag
is_raised_lem true = refl
is_raised_lem false = refl

abbrev pub packed : String → String → String → Bool → String
packed a b c flag =
    of_list (quote (to_list a) (quote (to_list b) (quote (to_list c) (raised flag))))

abbrev pub unpacked : String → String × String × String × Bool
unpacked s =
    let (a, cs) = unquote (to_list s) in
    let (b, ds) = unquote cs in
    let (c, flag) = unquote ds in (of_list a, of_list b, of_list c, is_raised flag)

pub unpacked-packed :
    (a b c : String) (flag : Bool) → unpacked (packed a b c flag) ≡ (a, b, c, flag)
unpacked-packed a b c flag =
    let end = quote (to_list c) (raised flag) in
    let rest = quote (to_list b) end in
    rw
      (
        to_list-of_list (quote (to_list a) rest),
        unquote-quote (to_list a) rest,
        unquote-quote (to_list b) end,
        unquote-quote (to_list c) (raised flag),
        is_raised_lem flag,
        of_list-to_list a,
        of_list-to_list b,
        of_list-to_list c,
      )
      refl

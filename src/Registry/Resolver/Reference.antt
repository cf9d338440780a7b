-- ===== src/Registry/Resolver/Reference.antt =====
-- app/registry/resolver.py: a reference is read back from its name and its label.
use Prim.Native.Char.{Char, code}
use Prim.Native.String.{String, [], ◌∷◌, ◌++◌}
use text.Mathlib.TextLemmas.{nil-append, cons-append}
use atlas_gateway.Common.{ℕ, ◌≡◌, refl, ap, ◌∙◌, ◌≢◌, false, ◌==◌, =ₛ-ne, some, ok}
use atlas_gateway.Registry.Resolver.{split_at_sign, line, parts, parse_split, parse_ref}

-- The text has no character with the code.
abbrev pub Without : ℕ → String → Type 0
Without n [] = Unit
Without n (c ∷ s) = ((code c == n) ≡ false) × Without n s

abbrev pub at_sign : Char
at_sign = "@"

split_at_sign-append :
    (name rest : String)
    → Without 64 name
    → split_at_sign (name ++ (at_sign ∷ rest)) ≡ some (name, rest)
unfolding split_at_sign
split_at_sign-append [] rest h = ap split_at_sign (nil-append (at_sign ∷ rest)) ∙ refl
split_at_sign-append (c ∷ name) rest (h, hs) =
    ap split_at_sign (cons-append c name (at_sign ∷ rest))
    ∙ rw (h, split_at_sign-append name rest hs) refl

line_lem : (s : String) → Without 10 s → line s ≡ some s
unfolding line
line_lem [] h = refl
line_lem (c ∷ s) (h, hs) = rw (h, line_lem s hs) refl

-- A name that is not empty and has no `@`, and a label that is not empty and is one line, are what
-- the reference made of them is parsed into.
pub parse_ref-append :
    (name label : String)
    → name ≢ ""
    → Without 64 name
    → label ≢ ""
    → Without 10 label
    → parse_ref (name ++ (at_sign ∷ label)) ≡ ok (name, label)
unfolding parse_ref parse_split parts
parse_ref-append name label hn wn hl wl =
    rw (split_at_sign-append name label wn)
      (rw (line_lem label wl, =ₛ-ne name "" hn, =ₛ-ne label "" hl) refl)

-- ===== src/Common/Texts.antt =====
-- Texts: the test of equality, and keys that differ behind a common prefix.
use Prim.Native.String.{String, ◌++◌}
use mathlib.Core.Path.{◌≡◌, refl}
use mathlib.Core.Logic.{◌≢◌, ◌↔◌}
use mathlib.Core.Bool.{Bool, true, false}
use text.Mathlib.Text.{◌==◌ as text_eq}
use text.Mathlib.TextLemmas.{append_cancel_left, nil-append, append-nil}
use text.Mathlib.TextEquality.{eq_iff}
use native.Mathlib.Omega.{arith}

infix 50 ◌=ₛ◌
abbrev pub ◌=ₛ◌ : String → String → Bool
s =ₛ t = text_eq s t

pub =ₛ_iff : (s t : String) → ((s =ₛ t) ≡ true) ↔ (s ≡ t)
=ₛ_iff s t = eq_iff s t

pub =ₛ-refl : (s : String) → (s =ₛ s) ≡ true
=ₛ-refl s = (eq_iff s s).1 refl

pub =ₛ-ne : (s t : String) → s ≢ t → (s =ₛ t) ≡ false
=ₛ-ne s t h = ground (arith, eq_iff s t)

pub ne_of_test : (s t : String) → (s =ₛ t) ≡ false → s ≢ t
ne_of_test s t e h = ground (arith, (eq_iff s t).1 h)

-- A common prefix keeps keys apart.
pub prefix_ne : (p s t : String) → s ≢ t → (p ++ s) ≢ (p ++ t)
prefix_ne p s t h e = h (append_cancel_left p s t e)

pub empty-append : (s : String) → ("" ++ s) ≡ s
empty-append s = nil-append s

pub append-empty : (s : String) → (s ++ "") ≡ s
append-empty s = append-nil s

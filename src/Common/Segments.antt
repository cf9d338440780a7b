-- ===== src/Common/Segments.antt =====
-- Texts that are joined with colons, and taken apart again.
use Prim.Native.Char.{Char}
use Prim.Native.String.{String, [], ◌∷◌, ◌++◌}
use mathlib.Core.Path.{◌≡◌, refl, sym, ap, ◌∙◌, subst}
use mathlib.Core.Logic.{◌≢◌}
use text.Mathlib.TextLemmas.{
  nil-append, cons-append, head-eq_of_cons-eq, tail-eq_of_cons-eq, append_cancel_left,
}

-- The text has no colon.
abbrev pub NoColon : String → Type 0
NoColon [] = Unit
NoColon (c ∷ s) = (c ≢ ":") × NoColon s

-- A colon between two texts.
abbrev pub join : String → String → String
join s t = s ++ (":" ∷ t)

join-nil : (t : String) → join [] t ≡ (":" ∷ t)
join-nil t = nil-append (":" ∷ t)

join-cons : (c : Char) (s t : String) → join (c ∷ s) t ≡ (c ∷ join s t)
join-cons c s t = cons-append c s (":" ∷ t)

-- The first colon is where the first part ends.
pub join_first :
    (s s' t t' : String) → NoColon s → NoColon s' → join s t ≡ join s' t' → (s ≡ s') × (t ≡ t')
join_first [] [] t t' f f' e = (refl, tail-eq_of_cons-eq (sym (join-nil t) ∙ e ∙ join-nil t'))
join_first [] (c ∷ s') t t' f (h, f') e =
    absurd (h (sym (head-eq_of_cons-eq (sym (join-nil t) ∙ e ∙ join-cons c s' t'))))
join_first (c ∷ s) [] t t' (h, f) f' e =
    absurd (h (head-eq_of_cons-eq (sym (join-cons c s t) ∙ e ∙ join-nil t')))
join_first (c ∷ s) (d ∷ s') t t' (h, f) (h', f') e =
    let e' = sym (join-cons c s t) ∙ e ∙ join-cons d s' t' in
    let (es, et) = join_first s s' t t' f f' (tail-eq_of_cons-eq e') in
    (ap (λ x. x ∷ s) (head-eq_of_cons-eq e') ∙ ap (λ x. d ∷ x) es, et)

join_not_free : (s t : String) → NoColon (join s t) → ⊥
join_not_free [] t f = (subst NoColon (join-nil t) f).0 refl
join_not_free (c ∷ s) t f = join_not_free s t (subst NoColon (join-cons c s t) f).1

-- The last colon is where the last part begins.
pub join_last :
    (s s' t t' : String) → NoColon t → NoColon t' → join s t ≡ join s' t' → (s ≡ s') × (t ≡ t')
join_last [] [] t t' f f' e = (refl, tail-eq_of_cons-eq (sym (join-nil t) ∙ e ∙ join-nil t'))
join_last [] (c ∷ s') t t' f f' e =
    let e' = tail-eq_of_cons-eq (sym (join-nil t) ∙ e ∙ join-cons c s' t') in
    absurd (join_not_free s' t' (subst NoColon e' f))
join_last (c ∷ s) [] t t' f f' e =
    let e' = tail-eq_of_cons-eq (sym (join-cons c s t) ∙ e ∙ join-nil t') in
    absurd (join_not_free s t (subst NoColon (sym e') f'))
join_last (c ∷ s) (d ∷ s') t t' f f' e =
    let e' = sym (join-cons c s t) ∙ e ∙ join-cons d s' t' in
    let (es, et) = join_last s s' t t' f f' (tail-eq_of_cons-eq e') in
    (ap (λ x. x ∷ s) (head-eq_of_cons-eq e') ∙ ap (λ x. d ∷ x) es, et)

-- Behind a common first part.
pub join_tail : (s t t' : String) → join s t ≡ join s t' → t ≡ t'
join_tail s t t' e = tail-eq_of_cons-eq (append_cancel_left s (":" ∷ t) (":" ∷ t') e)

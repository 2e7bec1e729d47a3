-- ===== src/Gsm/Receive/Converse.antt =====
-- What comes in for a module, one text after the other, by `gsm_check_event` of
-- src/libgsmat/gsm.c.
use chan_extra.Prelude.{sym, ◌∙◌, ◌≡◌, refl, true, false, ℕ, List, [], ◌∷◌, ◌++◌}
use chan_extra.Gsm.Module.{Env, Gsm}
use chan_extra.Gsm.Start.{Return, crashed, returned, spinning}
use chan_extra.Gsm.Receive.{gsm_check_event}

-- What is done after a text that leads to no event.
abbrev pub goes_on : Return → (Gsm → Return) → Return
goes_on spinning k = spinning
goes_on crashed k = crashed
goes_on (returned true g) k = returned true g
goes_on (returned false g) k = k g

-- One text after the other comes in, up to the first that leads to an event.
unfoldable pub converse : Env → Gsm → List (List ℕ) → Return
unfolding gsm_check_event
converse env g [] = returned false g
converse env g (text ∷ texts) = goes_on (gsm_check_event env g text) (λ h. converse env h texts)

-- The module of a return.
abbrev pub module_of : Gsm → Return → Gsm
module_of g spinning = g
module_of g crashed = g
module_of g (returned e h) = h

goes_on-goes_on :
    (r : Return) (k k' : Gsm → Return)
    → goes_on (goes_on r k) k' ≡ goes_on r (λ h. goes_on (k h) k')
goes_on-goes_on spinning k k' = refl
goes_on-goes_on crashed k k' = refl
goes_on-goes_on (returned true g) k k' = refl
goes_on-goes_on (returned false g) k k' = refl

same_goes_on :
    (r : Return) (k k' : Gsm → Return) → ((h : Gsm) → k h ≡ k' h) → goes_on r k ≡ goes_on r k'
same_goes_on spinning k k' same = refl
same_goes_on crashed k k' same = refl
same_goes_on (returned true g) k k' same = refl
same_goes_on (returned false g) k k' same = same g

pub converse-append :
    (env : Env) (g : Gsm) (xs ys : List (List ℕ))
    → converse env g (xs ++ ys) ≡ goes_on (converse env g xs) (λ h. converse env h ys)
unfolding converse
converse-append env g [] ys = refl
converse-append env g (x ∷ xs) ys =
    same_goes_on (gsm_check_event env g x) _ _ (λ h. converse-append env h xs ys)
    ∙ sym (
        goes_on-goes_on (gsm_check_event env g x) (λ h. converse env h xs) (λ h. converse env h ys))

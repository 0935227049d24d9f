-- ===== src/Prelude/Outcome/Laws.antt =====
-- The laws of the monad.
use mathlib.Core.Path.{◌≡◌, refl, ap, ◌∙◌}
use dropbox_ufrgs_sisop.Prelude.Outcome.{
  Outcome, done, raised, blocked, exited, fault, no_fuel, M, bind,
}

pub bind-done :
    {S A : Type 0} (m : Outcome S A) (k : A → M S A)
    → ((a : A) (s : S) → k a s ≡ done a s)
    → bind m k ≡ m
bind-done (done a s) k h = h a s
bind-done (raised e s) k h = refl
bind-done (blocked s) k h = refl
bind-done (exited s) k h = refl
bind-done fault k h = refl
bind-done no_fuel k h = refl

pub bind_assoc :
    {S A B C : Type 0} (m : Outcome S A) (k : A → M S B) (l : B → M S C)
    → bind (bind m k) l ≡ bind m (λ a s. bind (k a s) l)
bind_assoc (done a s) k l = refl
bind_assoc (raised e s) k l = refl
bind_assoc (blocked s) k l = refl
bind_assoc (exited s) k l = refl
bind_assoc fault k l = refl
bind_assoc no_fuel k l = refl

pub bind_congr :
    {S A B : Type 0} (m : Outcome S A) (k l : A → M S B)
    → ((a : A) (s : S) → k a s ≡ l a s)
    → bind m k ≡ bind m l
bind_congr (done a s) k l h = h a s
bind_congr (raised e s) k l h = refl
bind_congr (blocked s) k l h = refl
bind_congr (exited s) k l h = refl
bind_congr fault k l h = refl
bind_congr no_fuel k l h = refl

-- A first step that is done, with what follows it.
pub bind_step :
    {S A B : Type 0} {m : Outcome S A} (k : A → M S B) {a : A} {s : S} {r : Outcome S B}
    → m ≡ done a s
    → k a s ≡ r
    → bind m k ≡ r
bind_step k e h = ap (λ o. bind o k) e ∙ h

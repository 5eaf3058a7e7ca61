-- ===== src/Passes/Manager/Order.antt =====
-- The order in which the passes run.
use re_wizard.Prelude.{
  ℕ, String, Bool, true, not, List, [], length, ◌+◌, ◌≤◌, ◌≡◌, ◌⊎◌, ◌&&◌, ◌||◌, ◌∷◌, ◌++◌, ◌==◌,
  if◌then◌else◌, nat_key,
}
use text.Mathlib.Text.{◌==◌ as str_eq}
use re_wizard.Prelude.Map.{Map}
use re_wizard.Passes.Manager.{Sort}

-- How often a name stands in a list.
abbrev pub occ : String → List String → ℕ
occ n [] = 0
occ n (m ∷ ms) = (if str_eq m n then 1 else 0) + occ n ms

-- The edges into `n` from passes that are not in `done`.
left : List (String × String) → List String → String → ℕ
left [] done n = 0
left ((dep, m) ∷ edges) done n =
    (if occ dep done == 0 then if str_eq m n then 1 else 0 else 0) + left edges done n

-- All edges from passes that are not in `done`.
open_edges : List (String × String) → List String → ℕ
open_edges [] done = 0
open_edges ((dep, m) ∷ edges) done = (if occ dep done == 0 then 1 else 0) + open_edges edges done

-- A name is queued or done once at most, and then it has no degree left.
abbrev Once : (String → ℕ) → List String → List String → Type 0
Once degree queue done =
    (n : String)
    → (occ n queue + occ n done ≡ 0) ⊎ ((occ n queue + occ n done ≡ 1) × (degree n ≡ 0))

-- What is left of the degrees when the names `ts` are still to be lowered.
abbrev Owes : (String → ℕ) → List String → (String → ℕ) → Type 0
Owes degree ts rest = (n : String) → degree n ≡ occ n ts + rest n

record Released (s s' : Sort) (ts : List String) (rest : String → ℕ) : Type 0 where
  result : s'.result ≡ s.result
  once : Once s'.degree s'.queue s'.result
  owes : Owes s'.degree [] rest
  size : length s'.queue ≤ length s.queue + length ts

-- Every pass that `n` depends on is in `seen`.
abbrev pub ready : List (String × String) → List String → String → Bool
ready [] seen n = true
ready ((dep, m) ∷ edges) seen n =
    (not (str_eq m n) || not (occ dep seen == 0)) && ready edges seen n

-- Every pass of the list stands behind all that it depends on.
abbrev pub ordered : List (String × String) → List String → List String → Bool
ordered edges seen [] = true
ordered edges seen (n ∷ ns) = ready edges seen n && ordered edges (seen ++ n ∷ []) ns

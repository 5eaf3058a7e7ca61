-- ===== src/Tests/Blocks.antt =====
-- The theorems on blocks and functions, at sample code.
use re_wizard.Prelude.{
  ℕ, refl, inl, true, some, [], arith, keep, ◌≡◌, ◌↔◌, ◌⊎◌, ◌∷◌, nat_key, pair_key, string_key,
}
use re_wizard.Prelude.Set
use re_wizard.Prelude.Set.{contains}
use re_wizard.Units.Function.{Function}
use re_wizard.Units.Function.Lookup.{
  Covered, Starts, get_basic_block_for_address, get_basic_block_for_address-keeps,
}
use re_wizard.Units.Function.Normalize.{split_blocks}
use re_wizard.Units.Function.Normalize.Result.{split_blocks-Settled}
use re_wizard.Tests.{block_of, looping, overlapped}

overlapped_stays : split_blocks overlapped ≡ some overlapped
unfolding split_blocks get_basic_block_for_address keep Set.insert
overlapped_stays = refl

split_blocks-Settled_example : Starts overlapped.blocks 24
split_blocks-Settled_example =
    split_blocks-Settled overlapped overlapped 1 (block_of 16 32 []) 24 overlapped_stays refl
      (inl (inl refl)) (omega arith, omega arith)

get_basic_block_for_address-keeps_example :
    (Covered (get_basic_block_for_address looping 24).function.blocks 17
      ↔ Covered looping.blocks 17)
    × (Starts (get_basic_block_for_address looping 24).function.blocks 17 ↔ (
        Starts looping.blocks 17
        ⊎ ((get_basic_block_for_address looping 24).was_split ≡ true) × ◌≡◌ {A = ℕ} 17 24))
get_basic_block_for_address-keeps_example = get_basic_block_for_address-keeps looping 24 17

abbrev waiting : Function
waiting = record looping { call_sites = (20, 0) ∷ [] }

-- ===== src/Strategy/Allocator/Tests.antt =====
-- An allocator that has learnt with one feature is updated with two.
use stevehft.Prelude.{Holds, ℕ, refl, none, some, [], ◌∷◌, inr}
use stevehft.Prelude.Dict.{lookup}
use stevehft.Execution.Samples.{whole}
use stevehft.Strategy.Allocator.{Allocator, context_or_bias, fresh_theta, update}
use stevehft.Strategy.Allocator.Shaped.{IsUpdated, update-IsUpdated}

abbrev allocator : Allocator ℕ
allocator = record {
  config = record {
    learning_rate = 1;
    reward_learning_rate = 1;
    exploration_floor = 0;
    min_base_weight = 0;
    max_logit_abs = 8;
  };
  theta = fresh_theta 1;
  weights = record {
    base_mm = 1;
    lead_lag = 0;
    pair_spread = 0;
    inv_hedge = 0;
    taker_exit = 0;
    noise_fade = 0;
    cash = 0;
  };
}

update-IsUpdated_example :
    Holds
      (IsUpdated (context_or_bias {W = ℕ} (some (1 ∷ 2 ∷ []))))
      (update (("LEAD_LAG", 1) ∷ []) 1 none (some (1 ∷ 2 ∷ [])) allocator)
unfolding lookup
update-IsUpdated_example =
    update-IsUpdated (("LEAD_LAG", 1) ∷ []) 1 none (some (1 ∷ 2 ∷ [])) allocator (
      inr (
        1,
        (
          (refl, (refl, (refl, (refl, (refl, (refl, (refl, tt))))))),
          (refl, (refl, (refl, (refl, (refl, (refl, (refl, tt))))))),
        ),
      ))

-- ===== src/Bandwidth/Settings.antt =====
-- What a change of the settings leaves behind.
use goxdcr.Prelude.{ℕ, ◌≡◌, ◌⊎◌, Option, none, some}
use goxdcr.Prelude.Int64.{ℤ, ◌≤ℤ◌, ◌<ℤ◌, div_pos, mul_pos}
use goxdcr.Bandwidth.{Throttler, to_uint32}

-- The limit of this node that a state's settings stand for.
abbrev pub node_limit : Throttler → ℤ
node_limit t =
    div_pos (mul_pos (mul_pos t.overall_bandwidth_limit 1024) 1024) t.number_of_source_nodes

-- The state agrees with its settings, and the quota is within the limit.
pub record IsInForce (t : Throttler) : Type 0 where
  pub limit : t.bandwidth_limit ≡ node_limit t
  pub within : t.bandwidth_usage_quota ≤ℤ t.bandwidth_limit

-- The settings that are to be in force: the new ones, or the old ones where none is given.
abbrev pub new_overall : Option ℤ → Throttler → ℤ
new_overall none t = t.overall_bandwidth_limit
new_overall (some l) t = l

abbrev pub new_nodes : Option ℤ → Throttler → ℕ
new_nodes none t = t.number_of_source_nodes
new_nodes (some n) t = to_uint32 n

-- The state with these settings in force, and the quota cut down to the new limit.
pub record IsUpdated (overall nodes : Option ℤ) (before after : Throttler) : Type 0 where
  pub overall_stored : after.overall_bandwidth_limit ≡ new_overall overall before
  pub nodes_stored : after.number_of_source_nodes ≡ new_nodes nodes before
  pub in_force : IsInForce after
  pub quota :
      (after.bandwidth_usage_quota ≡ before.bandwidth_usage_quota)
      ⊎ ((after.bandwidth_usage_quota ≡ after.bandwidth_limit)
          × (after.bandwidth_limit <ℤ before.bandwidth_usage_quota))

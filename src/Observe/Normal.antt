-- ===== src/Observe/Normal.antt =====
-- The normal forms of ports and mounts forget the order of the specs.
use mathlib.Core.List.{Permᴰ}
use mathlib.Core.List.Permᴰ
use bay.Prelude.{String, ◌≡◌, List, some}
use bay.Prelude.Order.{sort-permᴰ, keep-permᴰ}
use bay.Observe.{desired_port_tuples, volume_tuples, port_spec_tuple, volume_tuple, is_nonempty}

-- Two lists of port specs that hold the same specs in another order have the same normal form, and
-- so have two lists of bind specs: a reordered list is never a difference.
pub tuples_forget_order :
    (l m : List String)
    → Permᴰ l m
    → (desired_port_tuples l ≡ desired_port_tuples m) × (volume_tuples l ≡ volume_tuples m)
unfolding desired_port_tuples volume_tuples
tuples_forget_order l m p = (
  sort-permᴰ (keep-permᴰ is_nonempty (Permᴰ.map (λ s. port_spec_tuple (some s)) p)),
  sort-permᴰ (keep-permᴰ is_nonempty (Permᴰ.map (λ s. volume_tuple (some s)) p)),
)

-- ===== src/Epoch.antt =====
-- Epochs and the life of a group: middleware/types/epoch.go. The interface has two implementations;
-- `genesisEpoch` appears both as a value and behind a pointer, which its `Equal` tells apart.
pub mod Lifetime
use zvchain.Base.{
  ℕ, ◌+◌, ◌-◌, ◌*◌, ◌/◌, Bool, true, false, ltb, leb, ◌==◌, if◌then◌else◌, add64, mul64,
}

abbrev pub epoch_length : ℕ
epoch_length = 240

abbrev pub group_live_epochs : ℕ
group_live_epochs = 25

abbrev pub group_activate_epoch_gap : ℕ
group_activate_epoch_gap = 1

pub data Epoch : Type 0 where
  epoch : ℕ → Epoch
  genesis_value : Epoch
  genesis_pointer : Epoch

unfoldable pub start : Epoch → ℕ
unfolding mul64
start (epoch e) = mul64 e epoch_length
start _ = 0

unfoldable pub end : Epoch → ℕ
unfolding start add64
end (epoch e) = add64 (start (epoch e)) epoch_length
end _ = 0

unfoldable pub epoch_at : ℕ → Epoch
epoch_at h = epoch (h / epoch_length)

unfoldable pub prev : Epoch → Epoch
unfolding start epoch_at
prev (epoch e) = if ltb (start (epoch e)) 1 then genesis_value else epoch_at (start (epoch e) - 1)
prev g = genesis_value

unfoldable pub next : Epoch → Epoch
unfolding end epoch_at add64
next (epoch e) = epoch_at (add64 (end (epoch e)) 1)
next g = epoch_at 1

-- `Add` of a delta that is not negative.
unfoldable pub add_epochs : Epoch → ℕ → Epoch
unfolding start epoch_at add64 mul64
add_epochs (epoch e) delta = epoch_at (add64 (start (epoch e)) (mul64 delta epoch_length))
add_epochs g delta =
    if delta == 0
    then genesis_value
    else if delta == 1
    then epoch_at 0
    else epoch_at (add64 (start g) (mul64 delta epoch_length))

-- `Add` of the delta `- back`, where `back` is positive.
unfoldable pub sub_epochs : Epoch → ℕ → Epoch
unfolding start epoch_at mul64
sub_epochs (epoch e) back =
    if leb (mul64 back epoch_length) (start (epoch e))
    then epoch_at (start (epoch e) - mul64 back epoch_length)
    else genesis_pointer
sub_epochs g back = genesis_value

-- `Equal` of each implementation: a `genesisEpoch` equals what is behind a pointer.
unfoldable pub equal : Epoch → Epoch → Bool
unfolding end
equal (epoch e) e2 = end (epoch e) == end e2
equal g genesis_pointer = true
equal g _ = false

-- `CreateEpochsOfActivatedGroupsAt`
unfoldable pub last_create_epoch : ℕ → Epoch
unfolding epoch_at sub_epochs
last_create_epoch h = sub_epochs (epoch_at h) group_activate_epoch_gap

unfoldable pub first_create_epoch : ℕ → Epoch
unfolding last_create_epoch sub_epochs
first_create_epoch h = sub_epochs (last_create_epoch h) group_live_epochs

unfoldable pub activate_epoch_of_groups_created_at : ℕ → Epoch
unfolding epoch_at add_epochs
activate_epoch_of_groups_created_at h = add_epochs (epoch_at h) (group_activate_epoch_gap + 1)

unfoldable pub dismiss_epoch_of_groups_created_at : ℕ → Epoch
unfolding activate_epoch_of_groups_created_at add_epochs
dismiss_epoch_of_groups_created_at h =
    add_epochs (activate_epoch_of_groups_created_at h) group_live_epochs

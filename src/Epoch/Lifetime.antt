-- ===== src/Epoch/Lifetime.antt =====
-- The two ways in which the code asks which groups live at a height agree.
use zvchain.Base.{
  ℕ, ◌+◌, ◌-◌, ◌*◌, ◌/◌, ◌≤◌, ◌<◌, ◌≡◌, ap, inl, inr, ◌↔◌, ltb, arith, Bool-cases, u64_mod, mul64,
  add64,
}
use zvchain.Epoch.{
  epoch_length, epoch, start, end, epoch_at, prev, next, add_epochs, sub_epochs, last_create_epoch,
  first_create_epoch, activate_epoch_of_groups_created_at, dismiss_epoch_of_groups_created_at,
}

-- A height lies within its epoch.
pub epoch_at-start-end :
    (h : ℕ) → h + 240 < u64_mod → (start (epoch_at h) ≤ h) × (h < end (epoch_at h))
unfolding start end epoch_at mul64 add64
epoch_at-start-end h small = (omega arith, omega arith)

created_start : (h : ℕ) → h + 6480 < u64_mod → start (epoch_at h) ≡ h / 240 * 240
unfolding start epoch_at mul64
created_start h small = omega arith

active_start :
    (h : ℕ)
    → h + 6480 < u64_mod
    → start (activate_epoch_of_groups_created_at h) ≡ (h / 240 + 2) * 240
unfolding activate_epoch_of_groups_created_at add_epochs start epoch_at mul64 add64
active_start h small = omega arith

dismiss_start :
    (h : ℕ)
    → h + 6480 < u64_mod
    → start (dismiss_epoch_of_groups_created_at h) ≡ (h / 240 + 27) * 240
unfolding dismiss_epoch_of_groups_created_at activate_epoch_of_groups_created_at add_epochs start
    epoch_at mul64 add64
dismiss_start h small = omega arith

last_start : (h : ℕ) → h < u64_mod → start (last_create_epoch h) ≡ (h / 240 - 1) * 240
unfolding last_create_epoch sub_epochs start epoch_at mul64
last_start h small = ground arith

first_start : (h : ℕ) → h < u64_mod → start (first_create_epoch h) ≡ (h / 240 - 26) * 240
unfolding first_create_epoch last_create_epoch sub_epochs start epoch_at mul64
first_start h small = ground arith

-- A group whose creation epoch lies in the range that is active at a height is exactly one whose
-- activation epoch has begun and whose dismissal epoch has not, for heights that the machine's
-- integers leave a group's lifetime of room.
pub create_epochs-lifetime :
    (created h : ℕ)
    → created + 6480 < u64_mod
    → h < u64_mod
    → ((start (first_create_epoch h) ≤ start (epoch_at created))
        × (start (epoch_at created) < start (last_create_epoch h)))
      ↔ ((start (activate_epoch_of_groups_created_at created) ≤ h)
          × (h < start (dismiss_epoch_of_groups_created_at created)))
create_epochs-lifetime created h small small_h =
    rw
      (
        active_start created small,
        dismiss_start created small,
        first_start h small_h,
        last_start h small_h,
        created_start created small,
      )
      ((λ (a, b). (omega arith, omega arith)), (λ (a, b). (omega arith, omega arith)))

next_lem : (h : ℕ) → h + 720 < u64_mod → next (epoch_at h) ≡ epoch (h / 240 + 1)
unfolding next end start epoch_at mul64 add64
next_lem h small = ap epoch (omega arith)

prev_lem : (n : ℕ) → n * 240 + 240 < u64_mod → prev (epoch (n + 1)) ≡ epoch n
unfolding prev start epoch_at mul64
prev_lem n small = elim (Bool-cases (ltb (mul64 (n + 1) epoch_length) 1)) [
  | inl low ↦ ground arith
  | inr high ↦ rw high (ap epoch (omega arith))
]

-- The next epoch begins where an epoch ends, and the epoch before the next is the epoch itself, for
-- heights at least 720 below the range of a uint64.
pub prev-next :
    (h : ℕ)
    → h + 720 < u64_mod
    → (start (next (epoch_at h)) ≡ end (epoch_at h)) × (prev (next (epoch_at h)) ≡ epoch_at h)
unfolding start end epoch_at mul64 add64
prev-next h small =
    (rw (next_lem h small) (omega arith), rw (next_lem h small) (prev_lem (h / 240) (omega arith)))

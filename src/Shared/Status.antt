-- ===== src/Shared/Status.antt =====
-- The state of an entity that can be paused or deleted without deleting its row
-- (src/shared/domain/status).
use komi_saas_api.Base.{◌≡◌, refl, String, Bool, true, false, ◌||◌, str_eq, if◌then◌else◌}
use komi_saas_api.Base.Throws.{Result, ok, err, ◌>>◌, throw_if}

pub data EntityStatus : Type 0 where
  active inactive archived deleted : EntityStatus

pub data StatusError : Type 0 where
  invalid_status : String → StatusError
  status_already_set : EntityStatus → StatusError
  transition_not_allowed : EntityStatus → EntityStatus → StatusError

unfoldable pub is : EntityStatus → EntityStatus → Bool
is EntityStatus.active EntityStatus.active = true
is EntityStatus.inactive EntityStatus.inactive = true
is EntityStatus.archived EntityStatus.archived = true
is EntityStatus.deleted EntityStatus.deleted = true
is _ _ = false

-- `Status.TRANSITIONS[this.value].includes(next)`
unfoldable pub can_transition_to : EntityStatus → EntityStatus → Bool
unfolding is
can_transition_to EntityStatus.active next =
    is EntityStatus.inactive next || is EntityStatus.deleted next
can_transition_to EntityStatus.inactive next =
    is EntityStatus.active next || is EntityStatus.deleted next
can_transition_to EntityStatus.archived next =
    is EntityStatus.inactive next || is EntityStatus.deleted next
can_transition_to EntityStatus.deleted next = false

unfoldable pub transition_to : EntityStatus → EntityStatus → Result StatusError EntityStatus
unfolding is can_transition_to
transition_to this next = do
  throw_if (is next this) (StatusError.status_already_set next)
  throw_if (if can_transition_to this next then false else true)
      (StatusError.transition_not_allowed this next)
  ok next

-- `Status.create`: the value as the database and the requests write it.
unfoldable pub parse_status : String → Result StatusError EntityStatus
parse_status value =
    if str_eq value "ACTIVE"
    then ok EntityStatus.active
    else if str_eq value "INACTIVE"
    then ok EntityStatus.inactive
    else if str_eq value "ARCHIVED"
    then ok EntityStatus.archived
    else if str_eq value "DELETED"
    then ok EntityStatus.deleted
    else err (StatusError.invalid_status value)

pub is-deleted : (s : EntityStatus) → s ≡ EntityStatus.deleted → is EntityStatus.deleted s ≡ true
unfolding is
is-deleted EntityStatus.deleted h = refl
is-deleted EntityStatus.active h = cc
is-deleted EntityStatus.inactive h = cc
is-deleted EntityStatus.archived h = cc

-- ===== src/Store/Tests/Recovery.antt =====
-- The recovery of an expired claim on a concrete row.
use herdr_bots.Base.{true, ◌≡◌, refl, some, [], ◌∷◌, ok, refuse_if, arith}
use herdr_bots.Store.State
use herdr_bots.Store.Schema.{Run, Database}
use herdr_bots.Store.Table.{get_run, get_metadata, lock_occurrence_writes}
use herdr_bots.Store.Expiry.{interrupt_expired_provisioning}
use herdr_bots.Store.Expiry.Retires.{IsExpired, expired_claim_retires}
use herdr_bots.Store.Tests.{provisioning_run, holding}

abbrev stuck_store : Database
stuck_store = holding (provisioning_run ∷ [])

stuck-IsExpired : IsExpired 401 provisioning_run
stuck-IsExpired = record { state = refl; bare = refl; late = omega arith; free = refl }

stuck_claim_retires :
    ((interrupt_expired_provisioning "r1" 401 stuck_store).0 ≡ ok true)
    × (s : Run) × (get_run "r1" (interrupt_expired_provisioning "r1" 401 stuck_store).1 ≡ some s)
    × (s.state ≡ State.interrupted)
    × (s.unread ≡ true)
    × (s.provisioning_owner ≡ "")
unfolding get_run lock_occurrence_writes get_metadata refuse_if
stuck_claim_retires =
    expired_claim_retires "r1" 401 stuck_store provisioning_run refl stuck-IsExpired refl

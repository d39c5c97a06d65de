-- ===== src/Queue/Tests.antt =====
-- Runs of the queue on one and two notifications, and the theorems at concrete states.
use qbo_invoice_sync.Common.{
  ℕ, ◌≤◌, ◌≡◌, ◌≢◌, refl, sym, ap, Bool, false, none, some, [], ◌∷◌, arith, ◌==◌,
}
use qbo_invoice_sync.Queue.{
  pending, InboundEvent, IngestEventInput, Queue, new_row, to_event, publish, claim, select_due,
  update_row, take_lease, has_key, as_processed, ack, list_by_status,
}
use qbo_invoice_sync.Queue.Claim.{Claimed, claim-Claimed}
use qbo_invoice_sync.Queue.Invariant.{IsValid, Step, Reach, Reach-IsValid}
use qbo_invoice_sync.Queue.Invariant
use qbo_invoice_sync.Queue.History.{Extends, notices, Reach-Extends, publish_once}
use qbo_invoice_sync.Queue.Lease.{Passes, Meanwhile, lease_exclusive}
use qbo_invoice_sync.Queue.Lease
use qbo_invoice_sync.Queue.Recovery.{lease_recovers}

abbrev notification : IngestEventInput
notification = record {
  source = "external";
  entity_type = "invoice";
  entity_id = "7";
  operation = "update";
  occurred_at = some 5;
  dedupe_key = "external:invoice:7";
  payload = none;
}

abbrev second : IngestEventInput
second = record notification { entity_id = "8"; dedupe_key = "external:invoice:8" }

abbrev empty : Queue
empty = record { rows = []; next_id = 1 }

abbrev one : Queue
one = record { rows = new_row 1 10 notification ∷ []; next_id = 2 }

abbrev two : Queue
two = record { rows = new_row 1 10 notification ∷ new_row 2 12 second ∷ []; next_id = 3 }

-- `two`, with its first event claimed at 20 for a minute.
abbrev leased : Queue
leased = record {
  rows = take_lease 20 60000 (new_row 1 10 notification) ∷ new_row 2 12 second ∷ [];
  next_id = 3;
}

abbrev claimed_event : InboundEvent
claimed_event = to_event (take_lease 20 60000 (new_row 1 10 notification))

abbrev nobody : ℕ → Bool
nobody _ = false

-- `leased`, with its second event claimed at 30.
abbrev other_leased : Queue
other_leased = record {
  rows =
      take_lease 20 60000 (new_row 1 10 notification)
      ∷ take_lease 30 60000 (new_row 2 12 second)
      ∷ [];
  next_id = 3;
}

publish_test :
    (publish 10 notification empty ≡ (one, some (to_event (new_row 1 10 notification))))
    × (publish 11 notification one ≡ (record one { next_id = 3 }, none))
unfolding publish has_key
publish_test = (refl, refl)

first-claim : claim 20 60000 nobody two ≡ (leased, some claimed_event)
unfolding claim select_due update_row
first-claim = refl

second-claim :
    claim 30 60000 nobody leased
    ≡ (other_leased, some (to_event (take_lease 30 60000 (new_row 2 12 second))))
unfolding claim select_due update_row
second-claim = refl

-- A held row is passed over.
skip_locked_test : claim 20 60000 (λ id. id == 1) one ≡ (one, none)
unfolding claim select_due update_row
skip_locked_test = refl

list_test : list_by_status pending 1 two ≡ to_event (new_row 2 12 second) ∷ []
unfolding list_by_status
list_test = refl

empty-IsValid : IsValid empty
empty-IsValid = record { below = tt; ascending = tt; keys = tt; locks = tt }

first-Step : Step empty one
unfolding publish has_key
first-Step = Invariant.Step.published 10 notification refl

second-Step : Step one two
unfolding publish has_key
second-Step = Invariant.Step.published 12 second refl

Reach-two : Reach empty two
Reach-two = Invariant.Reach.next (Invariant.Reach.next Invariant.Reach.start first-Step) second-Step

two-IsValid : IsValid two
two-IsValid = Reach-IsValid empty-IsValid Reach-two

Reach-IsValid_example : IsValid two
Reach-IsValid_example = Reach-IsValid empty-IsValid Reach-two

Reach-Extends_example : Extends (notices empty) (notices two)
Reach-Extends_example = Reach-Extends Reach-two

claim-Claimed_example : Claimed 20 60000 nobody two leased claimed_event
claim-Claimed_example = claim-Claimed 20 60000 nobody two first-claim

Reach-after_publish : Reach (publish 10 notification empty).0 (ack 40 1 as_processed one)
unfolding publish has_key
Reach-after_publish =
    Invariant.Reach.next Invariant.Reach.start (Invariant.Step.acked 40 1 as_processed refl)

publish_once_example :
    ((publish 50 notification (ack 40 1 as_processed one)).1 ≡ none)
    × ((publish 50 notification (ack 40 1 as_processed one)).0.rows
        ≡ (ack 40 1 as_processed one).rows)
publish_once_example =
    publish_once 10 notification empty (ack 40 1 as_processed one) Reach-after_publish 50
      notification refl

passes : Passes 1 60020 leased leased
passes = Lease.Passes.start

lease_exclusive_example :
    (to_event (take_lease 30 60000 (new_row 2 12 second))).id ≢ claimed_event.id
lease_exclusive_example =
    lease_exclusive 20 60000 nobody two leased leased claimed_event two-IsValid first-claim passes
      30 60000 nobody other_leased (to_event (take_lease 30 60000 (new_row 2 12 second)))
      (omega arith) second-claim

others_claim : Passes 1 60020 leased other_leased
others_claim =
    Lease.Passes.next passes
      (Lease.Meanwhile.claimed 30 60000 nobody (omega arith) (sym (ap (λ p. p.0) second-claim)))

lease_recovers_example :
    (e' : InboundEvent) × ((claim 60020 60000 nobody other_leased).1 ≡ some e') × (e'.id ≤ 1)
lease_recovers_example =
    lease_recovers 20 60000 nobody two leased other_leased claimed_event two-IsValid first-claim
      others_claim 60020 60000 nobody (omega arith) refl

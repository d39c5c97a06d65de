-- ===== src/Controllers/Webhooks/Deliveries.antt =====
-- What a delivery to src/controllers/webhookController.ts leaves in the inbox.
use qbo_invoice_sync.Common.{
  ℕ, suc, ◌+◌, ◌-◌, ◌≤◌, ◌≡◌, refl, ap, subst, inl, inr, true, Bool-cases, Option, none, some,
  is_some, List, [], ◌∷◌, ◌++◌, map, String, All, In-append, In-concat, length, length-append,
  arith,
}
use qbo_invoice_sync.Errors.{Result, ok, err}
use qbo_invoice_sync.Action.{pure, continue, ◌>>=◌, >>=-ok, pure-ok}
use qbo_invoice_sync.Invoice.{Date}
use qbo_invoice_sync.Queue.{Row, InboundEvent, IngestEventInput, Queue, new_row, publish}
use qbo_invoice_sync.Queue.Publish.{KeyTaken, has_key-KeyTaken, publish_cases}
use qbo_invoice_sync.Webhooks.{ProviderWebhookEvent}
use qbo_invoice_sync.Provider.{AccountingProvider}
use qbo_invoice_sync.Controllers.{sent, respond}
use qbo_invoice_sync.Controllers.Webhooks.{
  publish_event, Counts, provider_input, counted, publish_all, publish_parsed, handle_provider,
}

-- What publishing an event does to the rows: it adds one that is not a duplicate, and keeps the rest.
pub record Published (event : IngestEventInput) (q q1 : Queue) (inserted : Option InboundEvent)
    : Type 0 where
  count : length q1.rows + counted inserted 0 ≡ length q.rows + 1
  present : KeyTaken event.dedupe_key q1.rows
  kept : (key : String) → KeyTaken key q.rows → KeyTaken key q1.rows

KeyTaken-append : (key : String) (rs more : List Row) → KeyTaken key rs → KeyTaken key (rs ++ more)
KeyTaken-append key rs more t = record {
  row = t.row;
  present = In-append rs more t.present;
  same = t.same;
}

publish-Published :
    (now : ℕ) (event : IngestEventInput) (q : Queue)
    → Published event q (publish now event q).0 (publish now event q).1
publish-Published now event q = elim (publish_cases now event q) [
  | inl (taken, same) ↦ rw same (record {
    count = refl;
    present = has_key-KeyTaken event.dedupe_key q.rows taken;
    kept = λ key t. t;
  })
  | inr (fresh, same) ↦ rw same (record {
    count = omega (arith, length-append q.rows (new_row q.next_id now event ∷ []));
    present = record {
      row = new_row q.next_id now event;
      present = In-concat q.rows _;
      same = refl;
    };
    kept = λ key t. KeyTaken-append key q.rows _ t;
  })
]

publish_event-Published :
    (now : ℕ) (event : IngestEventInput) (q q1 : Queue) (inserted : Option InboundEvent)
    → publish_event now event q ≡ (ok inserted, q1)
    → Published event q q1 inserted
unfolding publish_event
publish_event-Published now event q q1 inserted e = elim (Bool-cases (is_some event.occurred_at)) [
  | inl dated ↦
      let h = rw dated at e in
      let (same, end) = pure-ok (publish now event q).1 (publish now event q).0 h in
      subst (λ x. Published event q x inserted) end
        (subst (λ x. Published event q (publish now event q).0 x) same
          (publish-Published now event q))
  | inr undated ↦ let h = rw undated at e in absurd (cc)
]

-- The same of all the events of a delivery: `n` of them, `d` of them duplicates.
record AllPublished (keys : List String) (q q1 : Queue) (d : ℕ) : Type 0 where
  count : length q1.rows + d ≡ length q.rows + length keys
  few : d ≤ length keys
  present : All (λ key. KeyTaken key q1.rows) keys
  kept : (key : String) → KeyTaken key q.rows → KeyTaken key q1.rows

counted_lem :
    (inserted : Option InboundEvent) (n : ℕ)
    → (counted inserted n ≡ counted inserted 0 + n) × (counted inserted 0 ≤ 1)
counted_lem none n = (omega arith, omega arith)
counted_lem (some e) n = (omega arith, omega arith)

-- One event, and then the others.
one_more :
    (key : String) (keys : List String) (event : IngestEventInput) (q q2 q1 : Queue)
    (inserted : Option InboundEvent) (n : ℕ)
    → event.dedupe_key ≡ key
    → Published event q q2 inserted
    → AllPublished keys q2 q1 n
    → AllPublished (key ∷ keys) q q1 (counted inserted n)
one_more key keys event q q2 q1 inserted n at one more = record {
  count = omega (arith, counted_lem inserted n, one.count, more.count);
  few = omega (arith, counted_lem inserted n, more.few);
  present = (more.kept key (subst (λ k. KeyTaken k q2.rows) at one.present), more.present);
  kept = λ k t. more.kept k (one.kept k t);
}

module _ (parse_date : String → Date) (now : ℕ) where
  publish_all-AllPublished :
      (source : String) (events : List ProviderWebhookEvent) (q q1 : Queue) (d : ℕ)
      → publish_all parse_date now source events q ≡ (ok d, q1)
      → AllPublished (map (λ e. e.dedupe_key) events) q q1 d
  unfolding publish_all
  publish_all-AllPublished source [] q q1 d e =
      let (same, end) = pure-ok 0 q e in
      subst (λ x. AllPublished [] q q1 x) same
        (subst (λ x. AllPublished [] q x 0) end
          (record { count = refl; few = omega arith; present = tt; kept = λ key t. t }))
  publish_all-AllPublished source (event ∷ events) q q1 d e =
      let (inserted, q2, p, rest) =
        >>=-ok (publish_event now (provider_input parse_date now source event)) _ q e in
      let (n, q3, p1, last) = >>=-ok (publish_all parse_date now source events) _ q2 rest in
      let (same, end) = pure-ok (counted inserted n) q3 last in
      let input = provider_input parse_date now source event in
      let keys = map (λ x. x.dedupe_key) events in
      subst (λ x. AllPublished (event.dedupe_key ∷ keys) q q1 x) same
        (subst (λ x. AllPublished (event.dedupe_key ∷ keys) q x (counted inserted n)) end
          (one_more event.dedupe_key keys input q q2 q3 inserted n refl
            (publish_event-Published now input q q2 inserted p)
            (publish_all-AllPublished source events q2 q3 n p1)))

  respond-sent :
      (source : String) (events : List ProviderWebhookEvent) (q : Queue) (counts : Counts)
      (q1 : Queue)
      → respond (publish_parsed parse_date now source (ok events) q) ≡ (sent 200 counts, q1)
      → (d : ℕ) × (publish_all parse_date now source events q ≡ (ok d, q1))
        × (record { accepted = length events - d; duplicates = d } ≡ counts)
  unfolding ◌>>=◌
  respond-sent source events q counts q1 e = go (publish_all parse_date now source events q) e
    where
      go :
          (r : Result ℕ × Queue)
          → respond (
              continue
                (λ d. pure (sent 200 (record { accepted = length events - d; duplicates = d })))
                r)
            ≡ (sent 200 counts, q1)
          → (d : ℕ) × (r ≡ (ok d, q1))
            × (record { accepted = length events - d; duplicates = d } ≡ counts)
      go (ok d, s) h = (d, ap (λ x. (ok d, x)) (ap (λ x. x.1) h), let same = ap (λ x. x.0) h in cc)
      go (err x, s) h = cc

-- What an accepted delivery of the provider is: every event that was parsed from it is in the inbox,
-- each was counted as accepted or as a duplicate, and as many rows are new as were accepted.
pub record Delivered (keys : List String) (q q1 : Queue) (counts : Counts) : Type 0 where
  pub present : All (λ key. KeyTaken key q1.rows) keys
  pub complete : counts.accepted + counts.duplicates ≡ length keys
  pub grown : length q1.rows ≡ length q.rows + counts.accepted

AllPublished-Delivered :
    (keys : List String) (q q1 : Queue) (d n : ℕ)
    → n ≡ length keys
    → AllPublished keys q q1 d
    → Delivered keys q q1 (record { accepted = n - d; duplicates = d })
AllPublished-Delivered keys q q1 d n at a = record {
  present = a.present;
  complete = omega (arith, a.few, at);
  grown = omega (arith, a.few, a.count, at);
}

length-map : {A B : Type 0} (f : A → B) (xs : List A) → length xs ≡ length (map f xs)
length-map f [] = refl
length-map f (x ∷ xs) = ap suc (length-map f xs)

-- A delivery of the provider: where it is answered with 200, its signature was verified, its body was parsed, and every event in
-- it is in the inbox, accepted or counted as a duplicate.
pub provider_delivery :
    {P : Type 0} (provider : AccountingProvider P) (parse_date : String → Date) (now : ℕ)
    (at : String) (raw_body : List ℕ) (signature : Option (List ℕ)) (q q1 : Queue) (counts : Counts)
    → handle_provider parse_date now provider at raw_body signature q ≡ (sent 200 counts, q1)
    → (provider.verify_webhook_signature raw_body signature ≡ true)
      × ((events : List ProviderWebhookEvent) × (provider.parse_webhook at raw_body ≡ ok events)
          × Delivered (map (λ e. e.dedupe_key) events) q q1 counts)
unfolding handle_provider
provider_delivery provider parse_date now at raw_body signature q q1 counts e =
    elim (Bool-cases (provider.verify_webhook_signature raw_body signature)) [
      | inl verified ↦ (verified, go (provider.parse_webhook at raw_body) (rw verified at e))
      | inr forged ↦ let h = rw forged at e in absurd (cc)
    ]
  where
    go :
        (r : Result (List ProviderWebhookEvent))
        → respond (publish_parsed parse_date now provider.name r q) ≡ (sent 200 counts, q1)
        → (events : List ProviderWebhookEvent) × (r ≡ ok events)
          × Delivered (map (λ e. e.dedupe_key) events) q q1 counts
    go (err x) h = cc
    go (ok events) h =
        let (d, published, same) = respond-sent parse_date now provider.name events q counts q1 h in
        (
          events,
          refl,
          subst (λ c. Delivered (map (λ e. e.dedupe_key) events) q q1 c) same
              (AllPublished-Delivered _ q q1 d (length events)
                (length-map (λ e. e.dedupe_key) events)
                (publish_all-AllPublished parse_date now provider.name events q q1 d published)),
        )

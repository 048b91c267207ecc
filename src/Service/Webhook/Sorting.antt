-- ===== src/Service/Webhook/Sorting.antt =====
-- The updates that one call takes as new: per key, as many as the table has room for.
use Prim.Native.String
use Prim.Native.String.{String}
use text.Mathlib.Text.{◌==◌ as str_eq}
use wats.Base.{
  ℕ, suc, ◌+◌, ◌≡◌, refl, Bool, true, false, ◌||◌, Option, none, some, List, [], ◌∷◌, ◌++◌, any,
  arith, if◌then◌else◌,
}
use wats.Base.Json.{Json}
use wats.Base.Result.{Result}
use wats.Base.Text.{Text}
use wats.Persistence.Validation.{ErrorCode}
use wats.Persistence.WebhookEvents as Events
use wats.Persistence.WebhookEvents.{RecordResult, recorded, duplicate, record_webhook_event}
use wats.Persistence.WebhookEvents.Fresh.{
  fresh, Recording, as_new, as_known, refused, record_webhook_event-Recording, fresh_used,
}
use wats.Service.DedupKeys.{extract_dedup_key}
use wats.Service.Webhook.{Sorted, sort_recorded, sort_update, sort_updates}

abbrev pub is_key : String → Option String → Bool
is_key k none = false
is_key k (some j) = str_eq j k

module _ (sha256_hex : Text → String) (k : String) where
  abbrev pub has_key : Json → Bool
  has_key u = is_key k (extract_dedup_key sha256_hex u)

  -- How many updates have the key.
  unfoldable pub count : List Json → ℕ
  count [] = 0
  count (u ∷ us) = (if has_key u then 1 else 0) + count us

  pub count-append : (us vs : List Json) → count (us ++ vs) ≡ count us + count vs
  unfolding count
  count-append [] vs = omega arith
  count-append (u ∷ us) vs = omega (arith, count-append us vs)

  -- What is sorted from a table on: the room for the key is used up by the updates that are new, and
  -- none is left if an update with the key is met.
  pub record IsSorted (s : Events.Store) (met : Bool) (r : Sorted) : Type 0 where
    pub counted : fresh k s ≡ count r.to_dispatch + fresh k r.events
    pub used : met ≡ true → r.failed ≡ false → fresh k r.events ≡ 0

  sort_recorded-IsSorted :
      (u : Json) (key : String) (s : Events.Store)
      (res : Result ErrorCode (Events.Store × RecordResult)) (more : Events.Store → Sorted)
      (met : Bool)
      → extract_dedup_key sha256_hex u ≡ some key
      → Recording k key s res
      → ((s' : Events.Store) → IsSorted s' met (more s'))
      → IsSorted s (str_eq key k || met) (sort_recorded u s res more)
  unfolding sort_recorded count
  sort_recorded-IsSorted u key s res more met e (as_new s' room_for) h = record {
    counted = ground (arith, e, room_for, (h s').counted);
    used = λ m f. ground (arith, fresh_used k key s s' room_for, (h s').counted, (h s').used);
  }
  sort_recorded-IsSorted u key s res more met e (as_known taken) h = record {
    counted = (h s).counted;
    used = λ m f. ground (arith, taken, (h s).counted, (h s).used);
  }
  sort_recorded-IsSorted u key s res more met e (refused code) h = record {
    counted = ground arith;
    used = λ m f. cc;
  }

  sort_update-IsSorted :
      (fault : Bool) (now : ℕ) (u : Json) (key : Option String) (s : Events.Store)
      (more : Events.Store → Sorted) (met : Bool)
      → extract_dedup_key sha256_hex u ≡ key
      → ((s' : Events.Store) → IsSorted s' met (more s'))
      → IsSorted s (is_key k key || met) (sort_update fault now u key s more)
  unfolding sort_update count
  sort_update-IsSorted fault now u none s more met e h = record {
    counted = ground (arith, e, (h s).counted);
    used = (h s).used;
  }
  sort_update-IsSorted fault now u (some key) s more met e h =
      sort_recorded-IsSorted u key s
        (record_webhook_event fault s key (String.◌++◌ "sha256:" key) now) more met e
        (record_webhook_event-Recording k fault s key (String.◌++◌ "sha256:" key) now) h

  pub sort_updates-IsSorted :
      (fault : ℕ → Bool) (now : ℕ) (us : List Json) (i : ℕ) (s : Events.Store)
      → IsSorted s (any has_key us) (sort_updates sha256_hex fault now us i s)
  unfolding sort_updates count
  sort_updates-IsSorted fault now [] i s = record { counted = omega arith; used = λ m f. cc }
  sort_updates-IsSorted fault now (u ∷ us) i s =
      sort_update-IsSorted (fault i) now u (extract_dedup_key sha256_hex u) s
        (sort_updates sha256_hex fault now us (suc i)) (any has_key us) refl
        (sort_updates-IsSorted fault now us (suc i))

-- ===== src/Service/KeyedSend/Once.antt =====
-- Histories of handlers that overlap: how many requests with one key reach the Graph API.
use Prim.Native.String.{String}
use wats.Base.{ℕ, suc, ◌≤◌, ◌≡◌, ◌≢◌, Bool, false, List, [], ◌∷◌, arith, if◌then◌else◌}
use wats.Persistence.ServiceRequests.Slots.{Slot, free, slot, IsWhole}
use wats.Persistence.ServiceRequests.Calls.{open_slots, Progress}
use wats.Service.KeyedSend.{State, Request, Config, Claim, begin, GraphResult, Rest, finish}
use wats.Service.KeyedSend.Steps.{sends_key, begin-Progress, finish-Progress}

-- A handler begins or, with what the Graph API gives, goes on. The first argument of a beginning is
-- whether its statement fails.
pub data Event (P : Type 0) : Type 0 where
  arrives : Bool → Request P → Event P
  returns : Rest → Claim → GraphResult → Event P

module _ {P : Type 0} (c : Config) (is_json : String → Bool) where
  -- The state after an event.
  pub next : State → Event P → State
  next s (arrives fault r) = (begin c fault s r).0
  next s (returns rest claim graph) = (finish c is_json rest s claim graph).0

  -- Whether an event sends a payload under the key `k`.
  pub is_sent : String → State → Event P → Bool
  is_sent k s (arrives fault r) = sends_key k (begin c fault s r).1
  is_sent k s (returns rest claim graph) = false

  -- How many payloads a history sends under the key `k`.
  pub sends_in : String → State → List (Event P) → ℕ
  sends_in k s [] = 0
  sends_in k s (e ∷ es) =
      let more = sends_in k (next s e) es in if is_sent k s e then suc more else more

open_slots-le : (x : Slot) → open_slots x ≤ 1
open_slots-le x = ground arith

open_slots-taken : (x : Slot) → x ≢ free → open_slots x ≡ 0
open_slots-taken x h = ground arith

module _ {P : Type 0} (c : Config) (is_json : String → Bool) (k : String) where
  pub next-Progress :
      (s : State) (e : Event P)
      → IsWhole s.requests
      → Progress k s.requests (next c is_json s e).requests (is_sent c is_json k s e)
  unfolding next is_sent
  next-Progress s (arrives fault r) w = begin-Progress k c fault s r w
  next-Progress s (returns rest claim graph) w = finish-Progress k c is_json rest s claim graph w

  sends_in-le :
      (s : State) (es : List (Event P))
      → IsWhole s.requests
      → sends_in c is_json k s es ≤ open_slots (slot k s.requests)
  unfolding sends_in
  sends_in-le s [] w = omega arith
  sends_in-le s (e ∷ es) w =
      let p = next-Progress s e w in
      ground (arith, p.budget, sends_in-le (next c is_json s e) es p.whole)

  -- From a store whose completed rows have their response, and over any overlapping of handlers,
  -- with valid or invalid requests, failing statements and failing Graph calls: at most one request
  -- that claims under a namespaced key is sent to the Graph API, and none if the key is taken in the
  -- store at first.
  pub sends_in-at-most-once :
      (s : State) (es : List (Event P))
      → IsWhole s.requests
      → (sends_in c is_json k s es ≤ 1) × (slot k s.requests ≢ free → sends_in c is_json k s es ≡ 0)
  sends_in-at-most-once s es w =
      let most = sends_in-le s es w in
      (
        omega (arith, open_slots-le (slot k s.requests), most),
        λ taken. omega (arith, open_slots-taken (slot k s.requests) taken, most),
      )

-- ===== src/Delivery/Cloud.antt =====
-- The settings that the cloud sends: `_cloud_pending` and the methods that follow it.
use oig_proxy.Common.{
  ℕ, true, Option, none, some, List, [], ◌∷◌, ◌++◌, ltb, nat_beq, any, Text, ◌==◌, text_eq, pair_eq,
  if◌then◌else◌,
}
use oig_proxy.Common.Dict
use oig_proxy.Values.{Value}
use oig_proxy.Delivery.State.{CloudPending, CloudKey, Delivery}

module _ {F : Type 0} where
  abbrev pub cloud_pending_key : CloudPending F → CloudKey
  cloud_pending_key p = (p.device_id, (p.setting.table, p.setting.key))

  unfoldable pub concat_values :
      {K : Type 0} → List (K × List (CloudPending F)) → List (CloudPending F)
  concat_values [] = []
  concat_values ((k, ps) ∷ d) = ps ++ concat_values d

  unfoldable pub iter_cloud_pending : Delivery F → List (CloudPending F)
  unfolding concat_values
  iter_cloud_pending d = concat_values d.cloud_pending

  -- `queue.remove(pending)`, for the object with that number; nothing, if it is not there
  unfoldable pub remove_object : ℕ → List (CloudPending F) → List (CloudPending F)
  remove_object uid [] = []
  remove_object uid (p ∷ ps) =
      let rest = remove_object uid ps in if nat_beq p.uid uid then ps else p ∷ rest

  -- what is stored for a queue after a removal: an empty queue is dropped
  store_queue : CloudKey → List (CloudPending F) → Delivery F → Delivery F
  store_queue k [] d = record d { cloud_pending = Dict.erase k d.cloud_pending }
  store_queue k (p ∷ ps) d = record d { cloud_pending = Dict.put k (p ∷ ps) d.cloud_pending }

  -- The early returns of the source leave the state as it is.
  unfoldable pub remove_cloud_pending : CloudPending F → Delivery F → Delivery F
  unfolding remove_object store_queue
  remove_cloud_pending p d =
      let k = cloud_pending_key p in
      elim (Dict.get k d.cloud_pending) [
        | none ↦ d
        | some ps ↦
            if any (λ q. nat_beq q.uid p.uid) ps
            then store_queue k (remove_object p.uid ps) d
            else d
      ]

  -- `min(…, key=tracked_at)`: the first of the smallest
  unfoldable pub oldest : CloudPending F → List (CloudPending F) → CloudPending F
  oldest p [] = p
  oldest p (q ∷ ps) = oldest (if ltb q.tracked_at p.tracked_at then q else p) ps

  -- the candidates of `_oldest_cloud_pending`, for one device or for all
  unfoldable pub candidates : Option Text → List (CloudPending F) → List (CloudPending F)
  candidates device [] = []
  candidates device (p ∷ ps) =
      let rest = candidates device ps in
      if elim device [ none ↦ true | some id ↦ p.device_id == id ] then p ∷ rest else rest

  oldest_of : List (CloudPending F) → Option (CloudPending F)
  unfolding oldest
  oldest_of [] = none
  oldest_of (p ∷ ps) = some (oldest p ps)

  unfoldable pub oldest_cloud_pending : Option Text → Delivery F → Option (CloudPending F)
  unfolding iter_cloud_pending candidates oldest_of
  oldest_cloud_pending device d = oldest_of (candidates device (iter_cloud_pending d))

  -- a change of an object, wherever the dictionary holds it
  update_object :
      ℕ → (CloudPending F → CloudPending F) → List (CloudPending F) → List (CloudPending F)
  update_object uid f [] = []
  update_object uid f (p ∷ ps) = (if nat_beq p.uid uid then f p else p) ∷ update_object uid f ps

  unfoldable pub update_pending :
      ℕ
      → (CloudPending F → CloudPending F)
      → List (CloudKey × List (CloudPending F))
      → List (CloudKey × List (CloudPending F))
  unfolding update_object
  update_pending uid f [] = []
  update_pending uid f ((k, ps) ∷ d) = (k, update_object uid f ps) ∷ update_pending uid f d

  -- the entry of a queue that `match_cloud_tbl_events` picks: the first with the confirmed value,
  -- or else the first
  unfoldable pub first_with :
      (Value F → Text) → Text → List (CloudPending F) → Option (CloudPending F)
  first_with show text [] = none
  first_with show text (p ∷ ps) =
      let rest = first_with show text ps in if show p.setting.value == text then some p else rest

  unfoldable pub pick_match :
      (Value F → Text) → Text → List (CloudPending F) → Option (CloudPending F)
  unfolding first_with
  pick_match show text [] = none
  pick_match show text (p ∷ ps) = elim (first_with show text (p ∷ ps)) [
    | none ↦ some p
    | some q ↦ some q
  ]

-- ===== src/Queue/Refines.antt =====
-- The queue, seen as a map: it answers by the last thing that happened to a table and key.
use oig_proxy.Common.{
  ℕ, ◌≡◌, ◌∙◌, refl, ap, Bool, true, false, Option, none, some, List, [], ◌∷◌, Text, ◌==◌, text_eq,
  pair_eq, if◌then◌else◌,
}
use oig_proxy.Common.Dict
use oig_proxy.Values.{Value}
use oig_proxy.Queue.{
  TwinSetting, TwinQueue, Draws, new_queue, new_setting, enqueue, acknowledge, clear, get,
}
use oig_proxy.Queue.Laws.{get-enqueue, get-acknowledge}

-- A call of the queue.
pub data QueueCall (F : Type 0) : Type 0 where
  enqueues : Draws → (table key : Text) → Value F → (confirm audit raw : Text) → QueueCall F
  acknowledges : (table key : Text) → QueueCall F
  clears : QueueCall F

module _ {F : Type 0} where
  abbrev pub call_queue : QueueCall F → TwinQueue F → TwinQueue F
  call_queue (enqueues d table key v confirm audit raw) q =
      enqueue d table key v confirm audit raw q
  call_queue (acknowledges table key) q = (acknowledge table key q).0
  call_queue clears q = clear q

  -- the queue after the calls, the last one first
  abbrev pub after_calls : ℕ → List (QueueCall F) → TwinQueue F
  after_calls epoch [] = new_queue epoch
  after_calls epoch (x ∷ xs) = call_queue x (after_calls epoch xs)

  -- What the queue promises of a table and key: the value and the raw text of the last enqueueing,
  -- unless it was acknowledged or cleared away since.
  abbrev pub promised : List (QueueCall F) → Text → Text → Option (Value F × Text)
  promised [] t k = none
  promised (enqueues d table key v confirm audit raw ∷ xs) t k =
      if ◌==◌ {T = Text × Text} (table, key) (t, k) then some (v, raw) else promised xs t k
  promised (acknowledges table key ∷ xs) t k =
      if ◌==◌ {T = Text × Text} (table, key) (t, k) then none else promised xs t k
  promised (clears ∷ xs) t k = none

  abbrev pub content : Option (TwinSetting F) → Option (Value F × Text)
  content none = none
  content (some s) = some (s.value, s.raw_text)

  content-if :
      (b : Bool) (x y : Option (TwinSetting F))
      → content (if b then x else y) ≡ (if b then content x else content y)
  content-if true x y = refl
  content-if false x y = refl

  -- After any calls on a new queue, what it holds under a table and key is what it promises: the
  -- value and the raw text that were enqueued last, if neither an acknowledgement nor a clearing
  -- came after.
  pub get-promised :
      (epoch : ℕ) (xs : List (QueueCall F)) (t k : Text)
      → content (get t k (after_calls epoch xs)) ≡ promised xs t k
  unfolding get new_queue clear new_setting Dict.get
  get-promised epoch [] t k = refl
  get-promised epoch (enqueues d table key v confirm audit raw ∷ xs) t k =
      let q = after_calls epoch xs in
      let same = ◌==◌ {T = Text × Text} (table, key) (t, k) in
      let s = new_setting d table key v confirm audit raw q.next_id_set in
      ap (λ o. content o) (get-enqueue d table key v confirm audit raw t k q).0
      ∙ (content-if same (some s) (get t k q)
          ∙ ap (λ o. if same then some (v, raw) else o) (get-promised epoch xs t k))
  get-promised epoch (acknowledges table key ∷ xs) t k =
      let q = after_calls epoch xs in
      let same = ◌==◌ {T = Text × Text} (table, key) (t, k) in
      ap (λ o. content o) (get-acknowledge table key t k q).0
      ∙ (content-if same none (get t k q)
          ∙ ap (λ o. if same then none else o) (get-promised epoch xs t k))
  get-promised epoch (clears ∷ xs) t k = refl

-- ===== src/Queue/Laws.antt =====
-- One setting for each table and key, and delivery in the order of enqueueing.

use oig_proxy.Common.{
  ◌+◌, ◌≡◌, refl, none, some, [], ◌∷◌, arith, length, Text, ◌==◌, text_eq, pair_eq, if◌then◌else◌,
}
use oig_proxy.Common.Texts.{pair_beq_iff}
use oig_proxy.Common.Dict
use oig_proxy.Common.Dict.{Dict, values, get-put, get-erase, beq_refl}
use oig_proxy.Values.{Value}
use oig_proxy.Queue.{TwinSetting, TwinQueue, Draws, new_setting, enqueue, acknowledge, size, get}

-- Each entry stands under the table and the key of its setting, and under no other entry's.
abbrev pub Filed : {F : Type 0} → Dict (Text × Text) (TwinSetting F) → Type 0
Filed [] = Unit
Filed ((k, s) ∷ d) = (k ≡ (s.table, s.key)) × (Dict.get k d ≡ none) × Filed d

module _ {F : Type 0} where
  put-Filed :
      (k : Text × Text) (s : TwinSetting F) (d : Dict (Text × Text) (TwinSetting F))
      → k ≡ (s.table, s.key)
      → Filed d
      → Filed (Dict.put k s d)
  unfolding Dict.put Dict.get
  put-Filed k s [] e h = (e, refl, tt)
  put-Filed k s ((j, x) ∷ d) e h =
      ground (arith, pair_beq_iff j k, get-put k j s d, pair_beq_iff k j, put-Filed k s d e)

  erase-Filed :
      (k : Text × Text) (d : Dict (Text × Text) (TwinSetting F)) → Filed d → Filed (Dict.erase k d)
  unfolding Dict.erase Dict.get
  erase-Filed k [] h = tt
  erase-Filed k ((j, x) ∷ d) h = ground (arith, pair_beq_iff j k, get-erase k j d, erase-Filed k d)

  pub enqueue-Filed :
      (d : Draws) (table key : Text) (v : Value F) (confirm audit raw : Text) (q : TwinQueue F)
      → Filed q.queue
      → Filed (enqueue d table key v confirm audit raw q).queue
  unfolding enqueue
  enqueue-Filed d table key v confirm audit raw q h = put-Filed (table, key) _ q.queue refl h

  pub acknowledge-Filed :
      (table key : Text) (q : TwinQueue F) → Filed q.queue → Filed (acknowledge table key q).0.queue
  unfolding acknowledge
  acknowledge-Filed table key q h = ground (arith, erase-Filed (table, key) q.queue h)

  -- `acknowledge` removes the setting of its table and key and no other, and tells whether there
  -- was one.
  pub get-acknowledge :
      (table key t k : Text) (q : TwinQueue F)
      → (get t k (acknowledge table key q).0
          ≡ (if ◌==◌ {T = Text × Text} (table, key) (t, k) then none else get t k q))
        × ((acknowledge table key q).1 ≡ Dict.has (table, key) q.queue)
  unfolding acknowledge get
  get-acknowledge table key t k q =
      ground (arith, get-erase (table, key) (t, k) q.queue, pair_beq_iff (table, key) (t, k))

  length-put :
      (k : Text × Text) (s : TwinSetting F) (d : Dict (Text × Text) (TwinSetting F))
      → length (Dict.put k s d) ≡ (if Dict.has k d then length d else length d + 1)
  unfolding Dict.put Dict.get
  length-put k s [] = ground arith
  length-put k s ((j, x) ∷ d) = ground (arith, length-put k s d)

  -- After `enqueue` the queue holds, under the table and the key, the new setting in place of the
  -- one that it held before; every other lookup answers as before, and the queue grows by one
  -- exactly when nothing was pending under that table and key.
  pub get-enqueue :
      (d : Draws) (table key : Text) (v : Value F) (confirm audit raw t k : Text) (q : TwinQueue F)
      → let q' = enqueue d table key v confirm audit raw q in
        (get t k q' ≡ (
          if ◌==◌ {T = Text × Text} (table, key) (t, k)
          then some (new_setting d table key v confirm audit raw q.next_id_set)
          else get t k q))
        × (size q' ≡ (if Dict.has (table, key) q.queue then size q else size q + 1))
  unfolding get enqueue size
  get-enqueue d table key v confirm audit raw t k q =
      let s : TwinSetting F = new_setting d table key v confirm audit raw q.next_id_set in
      (get-put (table, key) (t, k) s q.queue, length-put (table, key) s q.queue)

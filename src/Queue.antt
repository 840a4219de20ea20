-- ===== src/Queue.antt =====
-- twin/state.py: `TwinQueue`, the settings that wait for delivery, one for each table and key.
-- Clock readings are in microseconds; `int(time.time())` is in seconds.
pub mod Laws
pub mod Refines
pub mod Order
pub mod Ids
use oig_proxy.Common.{
  ℕ, ◌+◌, ◌-◌, ◌/◌, Bool, true, false, Option, none, some, List, [], ◌∷◌, leb, ltb, Text, codes,
  ◌==◌, text_eq, pair_eq, length, if◌then◌else◌,
}
use oig_proxy.Common.Dict
use oig_proxy.Common.Dict.{Dict, values}
use oig_proxy.Common.Decimal.{ℤ, pos}
use oig_proxy.Values.{Floats, Value}
use oig_proxy.Audit.Records.{Draw, generate_audit_id}

pub record TwinSetting (F : Type 0) : Type 0 where
  pub table : Text
  pub key : Text
  pub value : Value F
  pub enqueued_at : ℕ
  pub raw_text : Text
  pub audit_id : Text
  pub msg_id : ℤ
  pub id_set : ℤ
  pub confirm : Text

pub record TwinQueue (F : Type 0) : Type 0 where
  pub queue : Dict (Text × Text) (TwinSetting F)
  pub next_id_set : ℕ

-- What one call of `enqueue` draws: for an audit id, for `enqueued_at`, for a message id, and
-- `int(time.time())` for the case that the counter starts anew.
pub record Draws : Type 0 where
  pub audit : Draw
  pub enqueued_at : ℕ
  pub msg : ℕ
  pub epoch : ℕ

-- `__init__`, at `int(time.time())`
unfoldable pub new_queue : {F : Type 0} → ℕ → TwinQueue F
new_queue epoch = record { queue = []; next_id_set = epoch }

-- `secrets.randbelow(1_000_000) + 14_000_000`
unfoldable pub generate_msg_id : ℕ → ℕ
generate_msg_id random = random + 14000000

abbrev pub max_id_set : ℕ
max_id_set = 9999999999

-- The id, and the next value of the counter.
unfoldable pub generate_id_set : ℕ → ℕ → ℕ × ℕ
generate_id_set epoch next = (next, if ltb max_id_set (next + 1) then epoch else next + 1)

-- the audit id that `enqueue` uses: the one given, unless it is empty
given_audit_id : Draw → Text → Text
unfolding generate_audit_id
given_audit_id d [] = generate_audit_id d
given_audit_id d (c ∷ cs) = c ∷ cs

module _ {F : Type 0} where
  -- The setting that `enqueue` makes, with its id.
  unfoldable pub new_setting :
      Draws
      → (table key : Text) → Value F
      → (confirm audit_id raw_text : Text) (id : ℕ) → TwinSetting F
  unfolding given_audit_id generate_msg_id
  new_setting d table key value confirm audit_id raw_text id = record {
    table = table;
    key = key;
    value = value;
    enqueued_at = d.enqueued_at;
    raw_text = raw_text;
    audit_id = given_audit_id d.audit audit_id;
    msg_id = pos (generate_msg_id d.msg);
    id_set = pos id;
    confirm = confirm;
  }

  unfoldable pub enqueue :
      Draws
      → (table key : Text) → Value F
      → (confirm audit_id raw_text : Text) → TwinQueue F
      → TwinQueue F
  unfolding new_setting generate_id_set
  enqueue d table key value confirm audit_id raw_text q =
      let (id, next) = generate_id_set d.epoch q.next_id_set in
      record {
        queue =
            Dict.put (table, key) (new_setting d table key value confirm audit_id raw_text id)
              q.queue;
        next_id_set = next;
      }

  -- `sorted`, which is stable: a setting goes before the first that was not enqueued earlier.
  unfoldable pub insert_sorted : TwinSetting F → List (TwinSetting F) → List (TwinSetting F)
  insert_sorted s [] = s ∷ []
  insert_sorted s (x ∷ xs) =
      let rest = insert_sorted s xs in
      if leb s.enqueued_at x.enqueued_at then s ∷ x ∷ xs else x ∷ rest

  unfoldable pub sort_settings : List (TwinSetting F) → List (TwinSetting F)
  unfolding insert_sorted
  sort_settings [] = []
  sort_settings (s ∷ ss) = insert_sorted s (sort_settings ss)

  unfoldable pub get_pending : TwinQueue F → List (TwinSetting F)
  unfolding sort_settings
  get_pending q = sort_settings (values q.queue)

  unfoldable pub acknowledge : Text → Text → TwinQueue F → TwinQueue F × Bool
  acknowledge table key q =
      if Dict.has (table, key) q.queue
      then (record q { queue = Dict.erase (table, key) q.queue }, true)
      else (q, false)

  unfoldable pub size : TwinQueue F → ℕ
  size q = length q.queue

  unfoldable pub clear : TwinQueue F → TwinQueue F
  clear q = record q { queue = [] }

  unfoldable pub get : Text → Text → TwinQueue F → Option (TwinSetting F)
  get table key q = Dict.get (table, key) q.queue

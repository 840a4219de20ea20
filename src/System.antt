-- ===== src/System.antt =====
-- The wiring in main.py: one handler, one queue, one delivery. What happens to them is a control
-- message or a call that the server makes.
pub mod Delivered
use oig_proxy.Common.{ℕ, List, [], ◌∷◌, Text}
use oig_proxy.Values.{Floats}
use oig_proxy.Audit.Records.{Draw}
use oig_proxy.Queue.{Draws}
use oig_proxy.Delivery.State.{Delivery}
use oig_proxy.Delivery.Steps.{Call, perform}
use oig_proxy.Delivery.Steps.Pending.{IsTaking}
use oig_proxy.Handler.{Json, TwinControlHandler, on_message}

pub data Happening (F : Type 0) : Type 0 where
  message : Draws → (t raw : Text) → Happening F
  call : (x : Call F) → IsTaking x → Happening F

module _ (fl : Floats) (supply : ℕ → Draw) (read_json : Text → Json fl.Float) where
  open fl use {Float}

  unfoldable pub happen :
      Happening Float
      → TwinControlHandler Float × Delivery Float
      → TwinControlHandler Float × Delivery Float
  unfolding on_message perform
  happen (message draws t raw) (h, d) = on_message fl supply read_json draws t raw h d
  happen (call x i) (h, d) = (h, perform fl supply x d)

  unfoldable pub run_system :
      List (Happening Float)
      → TwinControlHandler Float × Delivery Float
      → TwinControlHandler Float × Delivery Float
  unfolding happen
  run_system [] s = s
  run_system (x ∷ xs) s = run_system xs (happen x s)

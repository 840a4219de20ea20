-- ===== src/Server/Closing.antt =====
-- A refusal of the box closes the setting in flight.
use oig_proxy.Common.{text_eq, pair_eq}
use oig_proxy.Common.Dict
use oig_proxy.Audit.Steps
use oig_proxy.Queue
use oig_proxy.Delivery.State.{Delivery}

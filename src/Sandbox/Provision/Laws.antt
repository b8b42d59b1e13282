-- ===== src/Sandbox/Provision/Laws.antt =====
-- src/activities/sandbox.py: `provision_sandbox` and the broker's registry.
use agentic_temporal_wf.Base.{text_eq}
use agentic_temporal_wf.Base.Text.{Text}
use agentic_temporal_wf.Broker.Registry.{Registry}

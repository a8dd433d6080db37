-- ===== src/Plugins.antt =====
-- code/ai-gateway/modules/registry.py and modules/ping/handler.py: the plugins of the gateway, as
-- Dispatch calls them.
pub mod Named
pub mod Sends
use diplom_code.Base.{String, Bool, false, some, List, [], ◌∷◌, ◌==◌, string_eq, pos}
use diplom_code.Py.{Runtime, str, Value, Fields, get, Result}
use diplom_code.Act.{World, Act, count}
use diplom_code.Config.{Disk}
use diplom_code.Dispatch.{Plugin, handle_message}
use diplom_code.Audio.Pipeline.{AudioInputs, process_audio}
use diplom_code.Face.Analysis.Gate.{FrameInputs}
use diplom_code.Face.Analysis.Process.{process_frame}

module _ ⦃rt : Runtime⦄ where
  abbrev is_type : String → Value → Bool
  is_type kind (str s) = s == kind
  is_type kind _ = false

  -- `msg.get("type") == kind`
  unfoldable pub handles : String → Fields → Bool
  handles kind msg = is_type kind (get "type" msg)

  -- `PingPlugin.process`
  unfoldable pub process_ping : Fields → Act (Unit {0})
  process_ping msg = count "ws_ping_received"

  abbrev pub ping_plugin : Plugin Fields World
  ping_plugin = record {
    priority = some (pos 50);
    can_handle = handles "ping";
    process = process_ping;
  }

  abbrev pub face_plugin : Disk → FrameInputs → Plugin Fields World
  face_plugin d i = record {
    priority = some (pos 100);
    can_handle = handles "frame";
    process = λ msg w. process_frame d msg i w;
  }

  abbrev pub audio_plugin : Disk → AudioInputs → Plugin Fields World
  audio_plugin d i = record {
    priority = some (pos 150);
    can_handle = handles "audio";
    process = λ msg w. process_audio d msg i w;
  }

  -- `iter_plugins`
  unfoldable pub iter_plugins : Disk → FrameInputs → AudioInputs → List (Plugin Fields World)
  iter_plugins d frame audio = ping_plugin ∷ face_plugin d frame ∷ audio_plugin d audio ∷ []

  -- One message, through the whole gateway.
  unfoldable pub gateway_step :
      rt.F → rt.F → Disk → FrameInputs → AudioInputs → Fields → World → Result (Unit {0}) × World
  gateway_step poll now d frame audio msg w =
      handle_message poll now d (iter_plugins d frame audio) msg w

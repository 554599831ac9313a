-- ===== src/Process/Cli.antt =====
-- src/main.rs: the options of the command line with their defaults, and the packet header that
-- `main` makes on its way. The parser of the options is the third-party crate clap.
use Prim.Native.String.{String}
use ws_gateway.Common.{Result, [], ◌∷◌}
use ws_gateway.Protocol.PacketType.{heartbeat}
use ws_gateway.Protocol.TargetType.{broadcast}
use ws_gateway.Protocol.Header.{PacketHeader, EncodeError, new}

-- Socket addresses and the path as they are written.
pub record Cli : Type 0 where
  pub udp : String
  pub ws : String
  pub metrics : String
  pub public_dir : String

unfoldable pub default_cli : Cli
default_cli = record {
  udp = "0.0.0.0:9999";
  ws = "0.0.0.0:8080";
  metrics = "0.0.0.0:9090";
  public_dir = "./public";
}

-- "sntnl" and "sentinel". The result is dropped, whatever it is.
unfoldable pub sentinel : Result PacketHeader EncodeError
sentinel =
    new heartbeat broadcast (115 ∷ 110 ∷ 116 ∷ 110 ∷ 108 ∷ [])
      (115 ∷ 101 ∷ 110 ∷ 116 ∷ 105 ∷ 110 ∷ 101 ∷ 108 ∷ []) 0 0

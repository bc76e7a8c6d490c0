-- ===== src/Channels.antt =====
-- include/channel.h: how a channel finds the connector of a peer.
use origin_ccl.Prelude.{ℕ, Option, none, some, List, [], ◌∷◌, get_elem?}
use origin_ccl.Prelude.Int.{ℤ, pos, negsuc}
use origin_ccl.Types.{Channel, Connector}

-- The element at an `int` index; `none` below 0 and past the end.
abbrev pub at_index {ℓ} : {A : Type ℓ} → List A → ℤ → Option A
at_index l (pos i) = get_elem? l i
at_index l (negsuc i) = none

-- `SendConnector` and `RecvConnector`; `none` is the null pointer.
abbrev pub send_connector : Channel → ℤ → Option Connector
send_connector channel peer = at_index channel.send peer

abbrev pub recv_connector : Channel → ℤ → Option Connector
recv_connector channel peer = at_index channel.recv peer

-- The transport of a connector, if there is one of either: what `FillTransports` pushes back.
abbrev pub connected : Option Connector → List (Option ℕ)
connected none = []
connected (some connector) = elim connector.transport [ none ↦ [] | some t ↦ some t ∷ [] ]

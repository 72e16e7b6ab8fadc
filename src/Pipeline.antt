-- ===== src/Pipeline.antt =====
-- pipeline.rs: the context of a packet, stages and their execution. `&mut PipelineContext` is
-- passed through, and what a stage has written stays written where it fails. The messages of
-- `tracing` are kept in a log beside the context.
pub mod Execution
use Prim.Native.String.{String}
use dhcp_relay_agent.Common.{
  ℕ, Bool, true, false, Option, none, some, List, [], ◌∷◌, ◌++◌, Bytes, Result, ok, err, map_err,
  length, is_empty, Eq, list_eq, nat_eq, append_assoc, ◌≡◌, refl,
}
use dhcp_relay_agent.Common.Assoc
use dhcp_relay_agent.Net.{Ipv4Addr, SocketAddr}
use dhcp_relay_agent.Error.{Text, text, RelayError, RelayResult}

pub record PipelineContext : Type 0 where
  pub raw_in : Bytes
  pub buffer : Bytes
  pub src_addr : SocketAddr
  pub interface : Bytes
  pub dst_addr : Option SocketAddr
  pub is_reforwarded : Bool
  pub is_trusted_circuit : Bool
  pub metadata : List (Bytes × Bytes)

unfoldable pub new_context : Bytes → SocketAddr → Bytes → PipelineContext
new_context raw_in src_addr interface = record {
  raw_in = raw_in;
  buffer = raw_in;
  src_addr = src_addr;
  interface = interface;
  dst_addr = none;
  is_reforwarded = false;
  is_trusted_circuit = false;
  metadata = [];
}

-- What is logged.
pub data Notice : Type 0 where
  halted : String → Notice
  untrusted_circuit : Bytes → Notice
  spoof_detected : Ipv4Addr → Notice
  vss_unsupported : Notice
  vpn_mismatch : (vpn_name expected : Bytes) → Notice

-- A context and the log.
pub record Flow : Type 0 where
  pub ctx : PipelineContext
  pub log : List Notice

abbrev pub Action : Type 0 → Type 0
Action A = Flow → RelayResult A × Flow

abbrev pub pure : {A : Type 0} → A → Action A
pure a f = (ok a, f)

abbrev pub raise : {A : Type 0} → RelayError → Action A
raise e f = (err e, f)

abbrev pub lift : {A : Type 0} → RelayResult A → Action A
lift r f = (r, f)

abbrev pub gets : {A : Type 0} → (PipelineContext → A) → Action A
gets g f = (ok (g f.ctx), f)

abbrev pub modify_ctx : (PipelineContext → PipelineContext) → Action Unit
modify_ctx g f = (ok tt, record f { ctx = g f.ctx })

abbrev pub notice : Notice → Action Unit
notice n f = (ok tt, record f { log = f.log ++ n ∷ [] })

abbrev continue : {A B : Type 0} → (A → Action B) → RelayResult A × Flow → RelayResult B × Flow
continue k (ok a, f) = k a f
continue k (err e, f) = (err e, f)

infixl 10 ◌>>=◌ ◌>>◌
abbrev pub ◌>>=◌ : {A B : Type 0} → Action A → (A → Action B) → Action B
◌>>=◌ m k f = continue k (m f)

abbrev pub ◌>>◌ : {A B : Type 0} → Action A → Action B → Action B
m >> n = m >>= λ _. n

abbrev pub put_metadata : Bytes → Bytes → Action Unit
put_metadata k v = modify_ctx (λ c. record c { metadata = Assoc.insert k v c.metadata })

-- `modify_v4` and `modify_v6` differ in the type of the messages: the buffer is decoded, changed
-- and encoded again. The texts of the codec's errors are given by the codec.
module _ {Message : Type 0} (decode : Bytes → Result Text Message)
    (encode : Message → Result Text Bytes) where
  unfoldable pub modify : String → (Message → RelayResult Message) → Action Unit
  modify stage f = do
    c ← gets (λ c. c.buffer)
    msg ← lift (map_err (λ e. RelayError.parse (text stage ∷ text " decode: " ∷ e)) (decode c))
    msg ← lift (f msg)
    buf ← lift (map_err (λ e. RelayError.parse (text stage ∷ text " encode: " ∷ e)) (encode msg))
    modify_ctx (λ c. record c { buffer = buf })

-- A stage object: its name and its `process`.
pub record Stage : Type 0 where
  pub name : String
  pub process : Action Bool

pub record Pipeline : Type 0 where
  pub stages : List Stage

abbrev pub new : Pipeline
new = record { stages = [] }

abbrev pub with_stages : List Stage → Pipeline
with_stages stages = record { stages = stages }

unfoldable pub add_stage : Stage → Pipeline → Pipeline
add_stage stage p = record { stages = p.stages ++ stage ∷ [] }

-- the loop of `execute`
unfoldable pub execute_stages : List Stage → Action Bool
execute_stages [] = pure true
execute_stages (stage ∷ rest) = do
  result ← stage.process
  elim result [ true ↦ execute_stages rest | false ↦ (do notice (halted stage.name); pure false) ]

unfoldable pub execute : Pipeline → Action Bool
unfolding execute_stages
execute p = execute_stages p.stages

unfoldable pub is_pipeline_empty : Pipeline → Bool
is_pipeline_empty p = is_empty p.stages

unfoldable pub len : Pipeline → ℕ
len p = length p.stages

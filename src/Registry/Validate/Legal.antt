-- ===== src/Registry/Validate/Legal.antt =====
-- What an entry of the registry has to be, part by part.
use wrtdeck.Prelude.{
  is_some, length, Dict, get, AtMost, Text, nat_key, text_key, codes, pos, is_positive, trim_space,
  lower_text, ℕ, ◌≤◌, ◌≡◌, ◌≢◌, ◌⊎◌, Bool, true, false, Option, none, some, List, [], ◌∷◌, ◌++◌,
}
use wrtdeck.Registry.Model.{
  ParamSpec, HttpSpec, TcpSpec, UdpSpec, MqttSpec, is_blank, ExecSpec, TransportSpec, ScheduleSpec,
  ExtractSpec, Entry,
}
use wrtdeck.Registry.Problem.{ok}
use wrtdeck.Registry.Mqtt.{Urls, normalize_broker_url}
use wrtdeck.Registry.Refs.{strip_secret_refs}
use wrtdeck.Template.{Piece, literal, variable, pieces}
use wrtdeck.Template.Refs.{key_of, ref_of}

abbrev pub Every {ℓ} : {A : Type ℓ} → (A → Type 0) → List A → Type 0
Every P [] = Unit
Every P (x ∷ xs) = P x × Every P xs

-- A small letter or a digit.
abbrev pub IsHead : ℕ → Type 0
IsHead c = ((b'a' ≤ c) × (c ≤ b'z')) ⊎ ((b'0' ≤ c) × (c ≤ b'9'))

abbrev pub IsTail : ℕ → Type 0
IsTail c = IsHead c ⊎ (c ≡ b'_') ⊎ (c ≡ b'-')

abbrev pub LegalId : Text → Type 0
LegalId id =
    (c : ℕ) × (rest : Text) × (id ≡ c ∷ rest) × IsHead c × Every IsTail rest × (length rest ≤ 63)

-- The bounds that are given are in order, unless one of them is no number (NaN).
abbrev pub InOrder : Option ℕ → Option ℕ → Type 0
InOrder (some low) (some high) = AtMost low high
InOrder _ _ = Unit

abbrev pub LegalParam : ParamSpec → Type 0
LegalParam p =
    (p.type ≡ codes "string")
    ⊎ (p.type ≡ codes "secret")
    ⊎ (p.type ≡ codes "boolean")
    ⊎ ((p.type ≡ codes "number") × InOrder p.min_value p.max_value)
    ⊎ ((p.type ≡ codes "select") × (p.options ≢ []))

abbrev pub LegalParams : Dict Text ParamSpec → Type 0
LegalParams [] = Unit
LegalParams ((name, p) ∷ m) = LegalParam p × LegalParams m

abbrev pub LegalMode : Text → MqttSpec → Type 0
LegalMode kind m =
    (is_blank m.mode ≡ true)
    ⊎ (m.mode ≡ codes "publish")
    ⊎ ((m.mode ≡ codes "subscribe") × (kind ≢ codes "action") × (m.retain ≡ false))

abbrev pub LegalEncoding : Text → Type 0
LegalEncoding t =
    (t ≡ []) ⊎ (t ≡ codes "text") ⊎ (t ≡ codes "json") ⊎ (t ≡ codes "hex") ⊎ (t ≡ codes "base64")

-- The specification of a broker with its address normalised.
pub record LegalMqtt (urls : Urls) (kind : Text) (given m : MqttSpec) : Type 0 where
  pub broker : Text
  pub normalised : normalize_broker_url urls given.broker ≡ ok broker
  pub same : m ≡ record given { broker = broker }
  pub topic : is_blank m.topic ≡ false
  pub mode : LegalMode kind m
  pub level : ℕ
  pub qos : m.qos ≡ pos level
  pub small : level ≤ 2
  pub encoding : LegalEncoding (lower_text (trim_space m.encoding))

-- The transport that was given, with the part of its type; only the address of a broker changes.
abbrev pub LegalTransport : Urls → Text → (given t : TransportSpec) → Type 0
LegalTransport urls kind given t =
    ((given.type ≡ codes "http")
      × (t ≡ given)
      × (h : HttpSpec) × (given.http ≡ some h)
      × (is_blank h.url ≡ false))
    ⊎ ((given.type ≡ codes "tcp")
        × (t ≡ given)
        × (s : TcpSpec) × (given.tcp ≡ some s)
        × (is_blank s.address ≡ false))
    ⊎ ((given.type ≡ codes "udp")
        × (t ≡ given)
        × (s : UdpSpec) × (given.udp ≡ some s)
        × (is_blank s.address ≡ false))
    ⊎ ((given.type ≡ codes "mqtt")
        × (g : MqttSpec) × (m : MqttSpec) × (given.mqtt ≡ some g)
        × (t ≡ record given { mqtt = some m })
        × LegalMqtt urls kind g m)
    ⊎ ((given.type ≡ codes "exec")
        × (t ≡ given)
        × (x : ExecSpec) × (given.exec ≡ some x)
        × (is_blank x.executable ≡ false))

abbrev pub LegalExtract : (Text → Bool) → ExtractSpec → Type 0
LegalExtract compiles x =
    ((x.type ≡ codes "raw")
      ⊎ (x.type ≡ [])
      ⊎ ((x.type ≡ codes "json") × (is_blank x.path ≡ false))
      ⊎ ((x.type ≡ codes "regex") × (compiles x.pattern ≡ true)))
    × ((x.value_type ≡ [])
        ⊎ (x.value_type ≡ codes "string")
        ⊎ (x.value_type ≡ codes "number")
        ⊎ (x.value_type ≡ codes "boolean"))

-- A source has a positive period and a rule of extraction.
abbrev pub Collects : (Text → Bool) → Entry → Type 0
Collects compiles e =
    (e.kind ≢ codes "source")
    ⊎ ((s : ScheduleSpec) × (x : ExtractSpec) × (e.schedule ≡ some s)
        × (is_positive s.interval_ms ≡ true)
        × (e.extract ≡ some x)
        × LegalExtract compiles x)

-- A placeholder names a parameter that is declared.
abbrev pub NamesParam : Dict Text ParamSpec → Piece → Type 0
NamesParam params (literal c) = Unit
NamesParam params (variable v) =
    (name : Text) × (key_of (ref_of v) ≡ codes "params." ++ name)
    × (is_some (get name params) ≡ true)

-- So does every placeholder of a text without its references to secrets.
abbrev pub Refers : Dict Text ParamSpec → Text → Type 0
Refers params t = Every (NamesParam params) (pieces (strip_secret_refs t))

abbrev pub RefersHeaders : Dict Text ParamSpec → Dict Text Text → Type 0
RefersHeaders params [] = Unit
RefersHeaders params ((k, v) ∷ m) = Refers params k × Refers params v × RefersHeaders params m

abbrev pub WhereGiven {ℓ} : {A : Type ℓ} → (A → Type 0) → Option A → Type 0
WhereGiven P none = Unit
WhereGiven P (some x) = P x

-- The texts of a transport that are rendered.
pub record LegalRefs (params : Dict Text ParamSpec) (t : TransportSpec) : Type 0 where
  pub http :
      WhereGiven
        (λ (h : HttpSpec).
          Refers params h.url × Refers params h.body × RefersHeaders params h.headers)
        t.http
  pub tcp : WhereGiven (λ (s : TcpSpec). Refers params s.address × Refers params s.payload) t.tcp
  pub udp : WhereGiven (λ (s : UdpSpec). Refers params s.address × Refers params s.payload) t.udp
  pub mqtt :
      WhereGiven
        (λ (m : MqttSpec).
          Refers params m.broker
          × Refers params m.topic
          × Refers params m.payload
          × Refers params m.username
          × Refers params m.password)
        t.mqtt
  pub exec :
      WhereGiven
        (λ (x : ExecSpec). Refers params x.executable × Every (Refers params) x.args)
        t.exec

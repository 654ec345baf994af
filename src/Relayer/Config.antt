-- ===== src/Relayer/Config.antt =====
-- crates/synddb-relayer/src/config.rs: which images each application admits. hex::decode and the
-- keccak256 of a text are parameters; the parsers of the file and of the arguments come before.
pub mod Laws
use Prim.Native.String.{len}
use synddb.Prelude.{
  ℕ, Bool, true, false, ◌||◌, not, String, Option, none, some, List, [], ◌∷◌, length, ◌==◌,
  if◌then◌else◌, Result, ok, err, ◌>>=◌, ◌>>◌,
}
use synddb.Shared.Bytes.{Bytes, bytes_eq}
use synddb.Bootstrap.{trim_0x}
use synddb.Relayer.Text.{trim, split, is_empty}

pub record ApplicationConfig : Type 0 where
  pub audience : String
  pub allowed_image_digests : List Bytes

pub record ConfigFile : Type 0 where
  pub rpc_url : String
  pub chain_id : ℕ
  pub bridge_address : String
  pub private_key : String
  pub listen_addr : String
  pub tx_confirmation_timeout_secs : ℕ
  pub validator_url : Option String
  pub applications : List ApplicationConfig

pub record CliConfig : Type 0 where
  pub rpc_url : Option String
  pub chain_id : Option ℕ
  pub bridge_address : Option String
  pub private_key : Option String
  pub listen_addr : String
  pub tx_confirmation_timeout_secs : ℕ
  pub required_audience : Option String
  pub allowed_image_digests : Option String
  pub validator_url : Option String

-- The map is a list of pairs; of two with one key the first counts.
pub record RelayerConfig : Type 0 where
  pub rpc_url : String
  pub chain_id : ℕ
  pub bridge_address : String
  pub private_key : String
  pub listen_addr : String
  pub tx_confirmation_timeout : ℕ
  pub validator_url : Option String
  pub applications : List (Bytes × ApplicationConfig)

abbrev pub lookup : Bytes → List (Bytes × ApplicationConfig) → Option ApplicationConfig
lookup h [] = none
lookup h ((k, app) ∷ apps) = if bytes_eq k h then some app else lookup h apps

abbrev pub get_application : RelayerConfig → Bytes → Option ApplicationConfig
get_application config audience_hash = lookup audience_hash config.applications

abbrev pub contains : Bytes → List Bytes → Bool
contains d [] = false
contains d (x ∷ xs) = bytes_eq x d || contains d xs

abbrev pub no_digests : List Bytes → Bool
no_digests [] = true
no_digests (d ∷ ds) = false

-- An empty list allows every image.
abbrev pub allows : ApplicationConfig → Bytes → Bool
allows app digest =
    no_digests app.allowed_image_digests || contains digest app.allowed_image_digests

abbrev pub allowed_in : List (Bytes × ApplicationConfig) → Bytes → Bytes → Bool
allowed_in apps audience_hash image_digest = elim (lookup audience_hash apps) [
  | none ↦ false
  | some app ↦ allows app image_digest
]

unfoldable pub is_digest_allowed : RelayerConfig → Bytes → Bytes → Bool
is_digest_allowed config audience_hash image_digest =
    allowed_in config.applications audience_hash image_digest

abbrev pub required : {A : Type 0} → Option A → String → Result A String
required none name = err name
required (some a) name = ok a

module _ (decode : String → Result Bytes String) (keccak256 : String → Bytes) where
  abbrev pub sized : Result Bytes String → Option Bytes
  sized (ok raw) = if length raw == 32 then some raw else none
  sized (err e) = none

  unfoldable pub parse_b256 : String → Option Bytes
  unfolding trim
  parse_b256 s = let t = trim s in sized (decode (trim_0x (len t) t))

  abbrev pub compute_audience_hash : String → Bytes
  compute_audience_hash audience = keccak256 audience

  abbrev inserted :
      List ApplicationConfig → List (Bytes × ApplicationConfig) → List (Bytes × ApplicationConfig)
  inserted [] map' = map'
  inserted (app ∷ apps) map' = inserted apps ((compute_audience_hash app.audience, app) ∷ map')

  unfoldable pub from_file : ConfigFile → Result RelayerConfig String
  from_file config = elim config.applications [
    | [] ↦ err "Config file must contain at least one [[application]]"
    | app ∷ apps ↦ ok (record {
      rpc_url = config.rpc_url;
      chain_id = config.chain_id;
      bridge_address = config.bridge_address;
      private_key = config.private_key;
      listen_addr = config.listen_addr;
      tx_confirmation_timeout = config.tx_confirmation_timeout_secs;
      validator_url = config.validator_url;
      applications = inserted (app ∷ apps) [];
    })
  ]

  abbrev pub kept : Option Bytes → List Bytes → List Bytes
  kept none ds = ds
  kept (some d) ds = d ∷ ds

  -- `filter_map`: what is no digest is left out.
  unfoldable pub parse_all : List String → List Bytes
  unfolding parse_b256
  parse_all [] = []
  parse_all (s ∷ ss) = kept (parse_b256 (trim s)) (parse_all ss)

  unfoldable pub digests_of : String → List Bytes
  unfolding parse_all split
  digests_of allowed = if is_empty allowed then [] else parse_all (split 44 allowed)

  abbrev pub is_ok : Result Bytes String → Bool
  is_ok (ok raw) = true
  is_ok (err e) = false

  -- `key.len() != 64 || hex::decode(key).is_err()`; `hex` admits ASCII texts only.
  abbrev pub valid_private_key : String → Result (Unit {0}) String
  valid_private_key private_key =
      let key = trim_0x (len private_key) private_key in
      if not (len key == 64) || not (is_ok (decode key))
      then err "RELAYER_PRIVATE_KEY must be a 32-byte hex string"
      else ok tt

  unfoldable pub from_env : CliConfig → Result RelayerConfig String
  unfolding digests_of
  from_env cli = do
    rpc_url ← required cli.rpc_url "RPC_URL is required"
    chain_id ← required cli.chain_id "CHAIN_ID is required"
    bridge_address ← required cli.bridge_address "BRIDGE_CONTRACT_ADDRESS is required"
    private_key ← required cli.private_key "RELAYER_PRIVATE_KEY is required"
    allowed_digests_str ← required cli.allowed_image_digests "ALLOWED_IMAGE_DIGESTS is required"
    audience ← required cli.required_audience "REQUIRED_AUDIENCE is required"
    valid_private_key private_key
    ok (record {
      rpc_url = rpc_url;
      chain_id = chain_id;
      bridge_address = bridge_address;
      private_key = private_key;
      listen_addr = cli.listen_addr;
      tx_confirmation_timeout = cli.tx_confirmation_timeout_secs;
      validator_url = cli.validator_url;
      applications =
          (
            compute_audience_hash audience,
            record { audience = audience; allowed_image_digests = digests_of allowed_digests_str },
          )
          ∷ [];
    })

-- ===== src/Fixtures.antt =====
-- The data of the tests: simple functions for the crates, a server that always answers, and an
-- account with one organization. None of this models the repository's code.
use vaultwarden_operator.Prelude.{
  ◌+◌, ◌-◌, ◌≡◌, refl, ap, inr, false, Option, none, some, List, [], ◌∷◌, ◌++◌, arith, ==_of_ne,
  length, replicate, ok, Str, Bytes, codes, ascii, Lacks,
}
use vaultwarden_operator.Duration.{from_secs}
use vaultwarden_operator.Crypto.{SymmetricKey, Crates, IsBase64}
use vaultwarden_operator.Crypto.CipherString.Print.{print}
use vaultwarden_operator.Crypto.CipherString.Decrypt.{IsCipher, encrypt}
use vaultwarden_operator.Sync.{
  SyncOrganization, SyncCipher, SyncResponse, DecryptedItem, VaultCache,
}
use vaultwarden_operator.Http.{replied, Trace, Net}
use vaultwarden_operator.Auth.{Services}
use vaultwarden_operator.Vault.{VaultClient, World, SecretRequest}
use vaultwarden_operator.Vault.Start.{Credentials}
use vaultwarden_operator.Crd.{VaultwardenSecretDataItem, VaultwardenSecret}
use vaultwarden_operator.Controller.Reconcile.{Kube}

unfoldable pub shift : Bytes → Str
shift [] = []
shift (b ∷ bs) = (b + 200) ∷ shift bs

unfoldable pub unshift : Str → Bytes
unshift [] = []
unshift (c ∷ s) = (c - 200) ∷ unshift s

-- An encoding that avoids every ASCII character, no cipher, and keys that are constant.
abbrev pub crates : Crates (Unit {0})
crates = record {
  base64_encode = shift;
  base64_decode = λ s. ok (unshift s);
  hmac_sha256 = λ key message. key;
  aes256_cbc_decrypt = λ key iv ct. ok ct;
  pbkdf2_hmac_sha256 = λ password salt rounds. replicate 32 7;
  argon2_params = λ m t p. ok tt;
  argon2id = λ m t p password salt. ok (replicate 32 7);
  hkdf_from_prk = λ prk. ok tt;
  hkdf_expand = λ prk info. ok (replicate 32 3);
  rsa_oaep_sha256 = λ key ct. ok ct;
  rsa_oaep_sha1 = λ key ct. ok ct;
  from_pkcs8_der = λ bytes. ok tt;
  as_bytes = λ s. s;
}

unshift-shift : (bs : Bytes) → unshift (shift bs) ≡ bs
unfolding shift unshift
unshift-shift [] = refl
unshift-shift (b ∷ bs) = let e : b + 200 - 200 ≡ b = omega arith in rw (e, unshift-shift bs)

shift-Lacks : (bs : Bytes) → Lacks b'|' (shift bs)
unfolding shift
shift-Lacks [] = tt
shift-Lacks (b ∷ bs) = (==_of_ne (b + 200) b'|' (λ e. omega arith), shift-Lacks bs)

pub crates-IsBase64 : IsBase64 crates
crates-IsBase64 = record {
  decode-encode = λ bs. ap (λ x. ok x) (unshift-shift bs);
  no_pipe = shift-Lacks;
}

abbrev pub no_cipher : Bytes → Bytes → Bytes → Bytes
no_cipher key iv plain = plain

pub crates-IsCipher : IsCipher crates no_cipher
crates-IsCipher = record {
  decrypt-encrypt = λ key iv plain aligned. refl;
  length-encrypt = λ key iv plain. refl;
}

abbrev pub zeros : Bytes
zeros = replicate 16 0

abbrev pub user_key : SymmetricKey
user_key = record { enc_key = replicate 32 1; mac_key = replicate 32 2 }

abbrev pub team_key : SymmetricKey
team_key = record { enc_key = replicate 32 4; mac_key = replicate 32 5 }

-- what HKDF makes of the master key
abbrev pub stretched_key : SymmetricKey
stretched_key = record { enc_key = replicate 32 3; mac_key = replicate 32 3 }

-- a text as the server holds it
abbrev pub sealed : SymmetricKey → Bytes → Str
sealed key plain = print crates (encrypt crates no_cipher zeros key plain)

abbrev pub sealed_user_key : Str
sealed_user_key = sealed stretched_key (replicate 32 1 ++ replicate 32 2)

-- a type 4 string
abbrev pub sealed_team_key : Str
sealed_team_key =
    print crates (record { enc_type = 4; iv = []; ct = replicate 32 4 ++ replicate 32 5; mac = [] })

abbrev pub team : SyncOrganization
team = record { id = codes "o1"; name = codes "Team"; key = sealed_team_key }

abbrev pub login_cipher : (name password : Str) (owner : Option Str) → SymmetricKey → SyncCipher
login_cipher name password owner key = record {
  id = name;
  cipher_type = 1;
  organization_id = owner;
  name = sealed key name;
  notes = none;
  login =
      some
        (record { username = none; password = some (sealed key password); uri = none; uris = [] });
  card = none;
  fields = [];
}

abbrev pub sync_response : SyncResponse
sync_response = record {
  profile = record {
    id = codes "u1";
    email = codes "a@b.c";
    key = sealed_user_key;
    private_key = sealed user_key (codes "der");
    organizations = team ∷ [];
  };
  ciphers =
      login_cipher (codes "Db") (codes "pw1") none user_key
      ∷ login_cipher (codes "Api") (codes "pw2") (some (codes "o1")) team_key
      ∷ login_cipher (codes "Lost") (codes "pw3") (some (codes "o2")) team_key
      ∷ [];
}

abbrev pub item : (name password : Str) (owner : Option Str) → DecryptedItem
item name password owner = record {
  id = name;
  cipher_type = 1;
  organization_id = owner;
  name = name;
  username = [];
  password = password;
  notes = [];
  uri = [];
  fields = [];
}

abbrev pub db : DecryptedItem
db = item (codes "Db") (codes "pw1") none

abbrev pub team_api : DecryptedItem
team_api = item (codes "Api") (codes "pw2") (some (codes "o1"))

abbrev pub cache : VaultCache
cache = record { items = db ∷ team_api ∷ []; orgs_by_name = (codes "team", codes "o1" ∷ []) ∷ [] }

-- a server that answers, and a clock that ticks a second per event
abbrev pub net : Net
net = record { server = λ t req. replied 200 (inr []); clock = λ t. from_secs (length t) }

abbrev pub services : Services (Unit {0})
services = record {
  unicode = ascii;
  crates = crates;
  net = net;
  prelogin_from_json =
      λ s. ok (record { kdf = 0; kdf_iterations = 1; kdf_memory = none; kdf_parallelism = none });
  token_from_json = λ s. ok (record {
    access_token = codes "at";
    expires_in = 3600;
    refresh_token = codes "rt";
    key = sealed_user_key;
  });
  profile_key_from_json = λ s. ok sealed_user_key;
  sync_from_json = λ s. ok sync_response;
  order = λ m. m;
  new_v4 = λ t. codes "device";
}

abbrev pub client : VaultClient
client = record {
  base_url = codes "https://v";
  email = codes "a@b.c";
  password = codes "pw";
  client_id = none;
  client_secret = none;
  device_id = codes "device";
  min_refresh_interval = from_secs 30;
}

-- a world with a session that was refreshed at the instant 0, after `t`
abbrev pub world : Option VaultCache → Trace → World
world vault t = record {
  session = record {
    access_token = codes "at";
    refresh_token = codes "rt";
    token_expires_at = from_secs 1000;
    sym_key = user_key;
    vault = vault;
    last_refresh_at = 0;
  };
  trace = t;
}

abbrev pub credentials : Credentials
credentials = record {
  base_url = codes "https://v/";
  email = codes "a@b.c";
  password = codes "pw";
  client_id = none;
  client_secret = none;
  min_refresh_interval = from_secs 30;
}

abbrev pub ask : Str → Option Str → SecretRequest
ask name vault = record { name = name; vault = vault }

abbrev pub entry : (key name : Str) → VaultwardenSecretDataItem
entry key name = record {
  key = key;
  secret_name = some name;
  vaultwarden_secret = none;
  vault = none;
}

abbrev pub resource : List VaultwardenSecretDataItem → VaultwardenSecret
resource items = record {
  name = codes "app";
  namespace = none;
  generation = some 2;
  owner_ref = some (codes "uid");
  spec = record { sync_interval = codes "1m"; default_vault = none; data_items = items };
  resource_status = none;
}

-- an API server that takes every call, and has no Secret yet
abbrev pub api : Kube
api = record { answer = λ calls c. ok false; now_rfc3339 = λ calls. codes "now" }

-- ===== src/Samples/Accounts.antt =====
-- Tables with two users and a key, and the parameters of the account modules as small functions.
use lite_agentify.Prelude.{
  true, ℕ, zero, suc, ◌+◌, ◌%◌, ◌<◌, ◌≡◌, refl, String, false, Option, none, some, List, [], ◌∷◌,
  All, length, ap, arith, nat_beq, ◌==◌, string_eq,
}
use lite_agentify.Prelude.Text.{byte_len}
use lite_agentify.Decimal.{fixed}
use lite_agentify.Account.{admin, user, Digest}
use lite_agentify.Account.Keys.{hex}
use lite_agentify.Account.Database.{ColumnJson, ColumnLaws, Server, UserRow, KeyRow, Database}
use lite_agentify.Session.{SessionIdentity, new_limiter}
use lite_agentify.Admin.{AdminState}
use lite_agentify.Admin.Password.{Argon2}
use lite_agentify.Samples.Gateway.{open_gateway, catalog, usd}

-- A column value is a text or an array of values.
mutual
  pub data Cell : Type 0 where
    text : String → Cell
    array : Cells → Cell
    pairs : List (String × String) → Cell

  pub data Cells : Type 0 where
    end : Cells
    item : Cell → Cells → Cells

abbrev cells_of : List Cell → Cells
cells_of [] = end
cells_of (v ∷ vs) = item v (cells_of vs)

abbrev list_of : Cells → List Cell
list_of end = []
list_of (item v vs) = v ∷ list_of vs

abbrev items : Cell → Option (List Cell)
items (text s) = none
items (array vs) = some (list_of vs)
items (pairs m) = none

abbrev text_in : Cell → Option String
text_in (text s) = some s
text_in (array vs) = none
text_in (pairs m) = none

abbrev pairs_in : Cell → Option (List (String × String))
pairs_in (text s) = none
pairs_in (array vs) = none
pairs_in (pairs m) = some m

abbrev pub sample_column : ColumnJson
sample_column = record {
  Value = Cell;
  array = λ vs. array (cells_of vs);
  text = text;
  as_array = items;
  as_str = text_in;
  to_value = pairs;
  from_value = pairs_in;
}

list_of-cells_of : (vs : List Cell) → list_of (cells_of vs) ≡ vs
list_of-cells_of [] = refl
list_of-cells_of (v ∷ vs) = ap (λ ws. v ∷ ws) (list_of-cells_of vs)

pub sample_column_laws : ColumnLaws sample_column
sample_column_laws = record {
  as_array-array = λ vs. ap some (list_of-cells_of vs);
  as_str-text = λ s. refl;
}

-- Every statement runs; the numbers of the statements serve as ids and times.
abbrev pub steady : Server
steady = record {
  is_down = λ n. false;
  collates = λ s t. true;
  new_id = λ n. 100 + n;
  now = λ n. n;
}

-- The statement of this number fails.
abbrev pub down_at : ℕ → Server
down_at at = record steady { is_down = λ n. nat_beq n at }

abbrev pub copies : ℕ → ℕ → List ℕ
copies zero b = []
copies (suc n) b = b ∷ copies n b

-- A digest of 32 equal bytes, which tells texts of different length apart.
abbrev pub length_digest : String → Digest
length_digest key = copies 32 (byte_len key % 256)

pub length_digest-IsDigest :
    (key : String) → (length (length_digest key) ≡ 32) × All (λ b. b < 256) (length_digest key)
length_digest-IsDigest key =
    (length-copies 32 (byte_len key % 256), copies-All 32 (byte_len key % 256) (omega arith))
  where
    length-copies : (n b : ℕ) → length (copies n b) ≡ n
    length-copies zero b = refl
    length-copies (suc n) b = ap suc (length-copies n b)

    copies-All : (n b : ℕ) → b < 256 → All (λ c. c < 256) (copies n b)
    copies-All zero b h = tt
    copies-All (suc n) b h = (h, copies-All n b h)

-- A hash that is the password behind a mark.
abbrev pub plain_hash : Argon2
plain_hash = record {
  PasswordHash = String;
  hash_password = λ salt password. some password;
  parse_hash = λ text. some text;
  verify = λ stored password. stored == password;
}

abbrev pub root_row : UserRow
root_row = record {
  id = 1;
  username = "root";
  password_hash = "secret-1";
  role = "admin";
  status = "active";
  created_at = 0;
}

abbrev pub ann_row : UserRow
ann_row = record {
  id = 2;
  username = "ann";
  password_hash = "secret-2";
  role = "user";
  status = "active";
  created_at = 1;
}

abbrev pub ann_key : KeyRow fixed sample_column
ann_key = record {
  id = 7;
  user_id = 2;
  key_hash = hex (length_digest "sk-1");
  prefix = "sk-1";
  name = "laptop";
  status = "active";
  created_at = 2;
  last_used_at = none;
  allowed_models = none;
  spend_cap_usd = some (usd 5);
}

abbrev pub tables : Database fixed sample_column
tables = record {
  users = root_row ∷ ann_row ∷ [];
  keys = ann_key ∷ [];
  providers = [];
  pricing = [];
  models = [];
  deployments = [];
  credit_grants = [];
  statements = 0;
}

abbrev pub no_tables : Database fixed sample_column
no_tables = record {
  users = [];
  keys = [];
  providers = [];
  pricing = [];
  models = [];
  deployments = [];
  credit_grants = [];
  statements = 0;
}

abbrev pub root : SessionIdentity
root = record { user_id = 1; username = "root"; role = admin }

abbrev pub ann : SessionIdentity
ann = record { user_id = 2; username = "ann"; role = user }

abbrev pub bob : SessionIdentity
bob = record { user_id = 3; username = "bob"; role = user }

abbrev pub console : AdminState fixed sample_column
console = record {
  shared = record { state = open_gateway; reload_path = none; catalog = catalog };
  database = tables;
  sessions = ("t2", record { identity = ann; expires_at = 50 }) ∷ [];
  limiter = new_limiter 60;
  published = some [];
  session_ttl = 100;
}

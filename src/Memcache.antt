-- ===== src/Memcache.antt =====
-- memcache/: the requests and responses of the protocol, the tokens that limit the requests at work,
-- and the serving of a connection. Go strings are lists of bytes, a connection the bytes still to come.
-- Times, logs and the access log are not modelled.
pub mod Text
pub mod Token
pub mod Receive
pub mod Send
pub mod Reply
pub mod Process
pub mod MapStore
pub mod Serve
mod Tests
use gobeansdb.Base.{ℕ, Bool, false, Option, none, some, List, [], ◌∷◌, if◌then◌else◌, bytes_eq}
use gobeansdb.Base.Int.{ℤ, pos}
use gobeansdb.Cmem.{CArray, empty_array}
use Text.{codes}

-- What `req.Cmd` is compared with, and any other text.
pub data Command : Type 0 where
  get gets set add replace cas append prepend delete incr decr stats quit version flush_all
        verbosity :
      Command
  other : List ℕ → Command

abbrev pub name_of : Command → List ℕ
name_of get = codes "get"
name_of gets = codes "gets"
name_of set = codes "set"
name_of add = codes "add"
name_of replace = codes "replace"
name_of cas = codes "cas"
name_of append = codes "append"
name_of prepend = codes "prepend"
name_of delete = codes "delete"
name_of incr = codes "incr"
name_of decr = codes "decr"
name_of stats = codes "stats"
name_of quit = codes "quit"
name_of version = codes "version"
name_of flush_all = codes "flush_all"
name_of verbosity = codes "verbosity"
name_of (other text) = text

abbrev pub commands : List Command
commands =
    get ∷ gets ∷ set ∷ add ∷ replace ∷ cas ∷ append ∷ prepend ∷ delete ∷ incr ∷ decr ∷ stats ∷ quit
    ∷ version ∷ flush_all ∷ verbosity ∷ []

abbrev pub command_among : List Command → List ℕ → Command
command_among [] text = other text
command_among (c ∷ cs) text =
    let rest = command_among cs text in if bytes_eq text (name_of c) then c else rest

abbrev pub command_of : List ℕ → Command
command_of text = command_among commands text

pub record Item : Type 0 where
  pub flag : ℤ
  pub exptime : ℤ
  pub cas_id : ℤ
  pub array : CArray

abbrev pub new_item : Item
new_item = record { flag = pos 0; exptime = pos 0; cas_id = pos 0; array = empty_array }

pub record Request : Type 0 where
  pub cmd : Command
  pub keys : List (List ℕ)
  pub item : Option Item
  pub no_reply : Bool

-- `Clear`
abbrev pub clear_request : Request → Request
clear_request req = record req { no_reply = false; item = none }

-- The words that `resp.Status` is set to.
pub data Status : Type 0 where
  value stat incr_status decr_status stored not_stored exists deleted not_found : Status
  end_status ok_status error server_error client_error version_status recv_timeout process_timeout :
      Status
  other_status : List ℕ → Status

pub record Response : Type 0 where
  pub status : Status
  pub msg : List ℕ
  pub with_cas : Bool
  pub noreply : Bool
  pub items : List (List ℕ × Item)

abbrev pub new_response : Response
new_response = record {
  status = other_status [];
  msg = [];
  with_cas = false;
  noreply = false;
  items = [];
}

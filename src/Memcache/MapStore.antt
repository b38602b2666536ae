-- ===== src/Memcache/MapStore.antt =====
-- `mapStore` of memcache/store.go: a client that keeps the items in a map. An item that it returns is
-- the stored one itself in Go; here it is a copy. The random numbers are a parameter.
use gobeansdb.Base.{
  ℕ, Bool, true, false, Option, none, some, List, [], ◌∷◌, ◌++◌, length, if◌then◌else◌, bytes_eq,
}
use gobeansdb.Base.Int.{ℤ, pos, eq_ℤ, add64}
use gobeansdb.Config.{McConfig}
use gobeansdb.Cmem.{CArray, empty_array, copy}
use gobeansdb.Memcache.{Item}
use gobeansdb.Memcache.Text.{codes, atoi, itoa}
use gobeansdb.Memcache.Process.{Fallible, success, failure, World, StorageClient}

abbrev pub MapData : Type 0
MapData = List (List ℕ × Item)

-- `s.data[key]`
unfoldable pub find_item : MapData → List ℕ → Option Item
find_item [] key = none
find_item ((k, item) ∷ rest) key =
    let later = find_item rest key in if bytes_eq k key then some item else later

unfoldable pub put_item : MapData → List ℕ → Item → MapData
put_item [] key item = (key, item) ∷ []
put_item ((k, old) ∷ rest) key item =
    let later = put_item rest key item in
    if bytes_eq k key then (key, item) ∷ rest else (k, old) ∷ later

unfoldable pub remove_item : MapData → List ℕ → MapData
remove_item [] key = []
remove_item ((k, old) ∷ rest) key =
    let later = remove_item rest key in if bytes_eq k key then later else (k, old) ∷ later

-- `GetMulti`; a key that is asked twice has one entry.
unfoldable pub find_items : MapData → List (List ℕ) → MapData
find_items entries [] = []
find_items entries (key ∷ keys) = elim (find_item entries key) [
  | none ↦ find_items entries keys
  | some item ↦ put_item (find_items entries keys) key item
]

append_found : MapData → List ℕ → List ℕ → Option Item → Bool × MapData
append_found entries key bytes none = (false, entries)
append_found entries key bytes (some item) =
    if eq_ℤ item.flag (pos 0)
    then (
      true,
      put_item entries key
          (record item { array = record item.array { body = item.array.body ++ bytes } }),
    )
    else (false, entries)

incr_number : MapData → List ℕ → ℤ → Item → Option ℤ → Fallible ℤ × MapData
incr_number entries key by item none = (failure (codes "invalid syntax"), entries)
incr_number entries key by item (some n) =
    let sum = add64 n by in
    (
      success sum,
      put_item entries key (record item { array = record item.array { body = itoa sum } }),
    )

-- A missing key counts as 0, and is not stored.
incr_found : MapData → List ℕ → ℤ → Option Item → Fallible ℤ × MapData
incr_found entries key by none = (success by, entries)
incr_found entries key by (some item) = incr_number entries key by item (atoi item.array.body)

abbrev or_empty : Option CArray → CArray
or_empty none = empty_array
or_empty (some arr) = arr

module _ (conf : McConfig) (malloc : ℕ → ℕ) (rand : ℤ) where
  -- `Set`: the map keeps a copy of the value.
  unfoldable pub set_copy : List ℕ → Item → World MapData → World MapData
  set_copy key item w =
      let (arr, rl) = copy conf malloc item.array w.rl in
      record {
        store = put_item w.store key (record item { cas_id = rand; array = or_empty arr });
        rl = rl;
      }

  unfoldable pub map_store : StorageClient MapData
  unfolding append_found incr_found incr_number
  map_store = record {
    do_get = λ key w. (success (find_item w.store key), w);
    do_get_multi = λ keys w. (success (find_items w.store keys), w);
    do_set = λ key item no_reply w. (success true, set_copy key item w);
    do_append = λ key bytes w.
        let r = append_found w.store key bytes (find_item w.store key) in
        (success r.0, record w { store = r.1 });
    do_incr = λ key by w.
        let r = incr_found w.store key by (find_item w.store key) in
        (r.0, record w { store = r.1 });
    do_delete = λ key w. elim (find_item w.store key) [
      | none ↦ (success false, w)
      | some item ↦ (success true, record w { store = remove_item w.store key })
    ];
    do_len = λ w. length w.store;
    do_process = λ key args w. ([], [], w);
  }

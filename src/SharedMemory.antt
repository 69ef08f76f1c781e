-- ===== src/SharedMemory.antt =====
-- The store of core/infrastructure/ipc/shm/shm.go. What the system answers is an argument; the
-- mapping of a file is a number, and what the store asks for is kept in order.
pub mod Closing
use vyx.Base.{
  ℕ, ◌≡◌, refl, sym, ap, ◌∙◌, Bool, true, false, Option, none, some, List, [], ◌∷◌, ◌++◌, Text, lit,
  Dict, lookup, insert, delete, if◌then◌else◌, str_eq,
}

pub record Descriptor : Type 0 where
  pub path : Text
  pub size : ℕ
  pub id : Text

pub record Region : Type 0 where
  pub data_of : ℕ
  pub path : Text

-- The calls that change a file or a mapping.
pub data Call : Type 0 where
  makes : Text → Call
  truncates : Text → ℕ → Call
  maps : Text → Call
  unmaps : ℕ → Call
  removes : Text → Call

pub record Store : Type 0 where
  pub regions : Dict Region
  pub asked : List Call

unfoldable pub new_store : Store
new_store = record { regions = []; asked = [] }

pub data ShmError : Type 0 where
  mkdir_failed : ShmError
  create_failed : ShmError
  truncate_failed : ShmError
  mmap_failed : ShmError
  open_failed : ShmError
  stat_failed : ShmError
  not_found : ShmError
  munmap_failed : ShmError

-- What the system answers to one `Create` or `Open`.
pub record Answers : Type 0 where
  pub mkdir : Bool
  pub file : Bool
  pub truncate : Bool
  pub stat : Option ℕ
  pub mmap : Option ℕ

abbrev pub name_of : Text → Text → Text
name_of worker_id request_id = lit "vyx-" ++ worker_id ++ b'-' ∷ request_id

pub data Created : Type 0 where
  refused : ShmError → Created
  created : Region → Descriptor → Created

abbrev pub asking : List Call → Store → Store
asking cs s = record s { asked = s.asked ++ cs }

-- The region of a mapping is stored under its path, over one that is there.
abbrev pub stored : Text → ℕ → Store → Store
stored path m s = record s { regions = insert path (record { data_of = m; path = path }) s.regions }

abbrev pub mapped : Text → Text → ℕ → Option ℕ → Store → Store × Created
mapped path name size none s = (asking (maps path ∷ removes path ∷ []) s, refused mmap_failed)
mapped path name size (some m) s = (
  stored path m (asking (maps path ∷ []) s),
  created (record { data_of = m; path = path }) (record { path = path; size = size; id = name }),
)

-- `Create`, with the join of the directory and a name.
unfoldable pub create : (Text → Text) → Answers → Text → Text → ℕ → Store → Store × Created
create join os worker_id request_id size s =
    let name = name_of worker_id request_id in
    let path = join name in
    if os.mkdir
    then if os.file
      then if os.truncate
        then mapped path name size os.mmap (asking (makes path ∷ truncates path size ∷ []) s)
        else (
          asking (makes path ∷ truncates path size ∷ removes path ∷ []) s,
          refused truncate_failed,
        )
      else (s, refused create_failed)
    else (s, refused mkdir_failed)

pub data Opened : Type 0 where
  failed : ShmError → Opened
  opened : Region → Opened

abbrev pub mapped_for_reading : Text → Option ℕ → Store → Store × Opened
mapped_for_reading path none s = (asking (maps path ∷ []) s, failed mmap_failed)
mapped_for_reading path (some m) s =
    (stored path m (asking (maps path ∷ []) s), opened (record { data_of = m; path = path }))

abbrev pub sized : Answers → Text → Option ℕ → Store → Store × Opened
sized os path none s = (s, failed stat_failed)
sized os path (some n) s = mapped_for_reading path os.mmap s

unfoldable pub open_region : Answers → Text → Store → Store × Opened
open_region os path s = if os.file then sized os path os.stat s else (s, failed open_failed)

abbrev pub close_found : (ℕ → Bool) → Text → Option Region → Store → Store × Option ShmError
close_found unmap path none s = (s, some not_found)
close_found unmap path (some r) s =
    if unmap r.data_of
    then (asking (unmaps r.data_of ∷ removes path ∷ []) s, none)
    else (asking (unmaps r.data_of ∷ []) s, some munmap_failed)

-- `Close`: the region is forgotten first, whatever comes of its mapping.
unfoldable pub close : (ℕ → Bool) → Text → Store → Store × Option ShmError
close unmap path s =
    close_found unmap path (lookup path s.regions) (record s { regions = delete path s.regions })

-- The loop of `CloseAll` over the regions; the last error is returned.
unfoldable pub close_each :
    (ℕ → Bool) → Dict Region → Option ShmError → Store → Store × Option ShmError
close_each unmap [] err s = (s, err)
close_each unmap ((path, r) ∷ rs) err s =
    close_each unmap rs (if unmap r.data_of then err else some munmap_failed)
      (asking (unmaps r.data_of ∷ removes path ∷ []) (record s { regions = delete path s.regions }))

unfoldable pub close_all : (ℕ → Bool) → Store → Store × Option ShmError
close_all unmap s = close_each unmap s.regions none s

-- ===== src/Waitlist/Positions.antt =====
-- The positions of the waiting users of a group under `joinWaitlist` and `leaveWaitlist`.
use ahjoor_backend.Common.{
  ℕ, suc, ◌+◌, ◌==◌, ◌≡◌, refl, ap, arith, leb, ltb, if◌then◌else◌, ◌&&◌, Bool, List, [], ◌∷◌, ◌++◌,
  count_by, update_where, some, Option-cases, inl, inr, ok, count_by-append, count_by-update,
  find-holds, count-save, HasUniqueKeys, ==_refl, find,
}
use ahjoor_backend.Entities.{WaitlistEntry, WaitlistStatus, Db}
use ahjoor_backend.Waitlist.{
  waits_in, waits, waiting_count, save_entry, close_gap, leave_waitlist, join_waitlist, new_entry,
}

-- How many waiting users of the group stand at position k.
abbrev pub position_count : ℕ → ℕ → List WaitlistEntry → ℕ
position_count gid k = count_by (λ w. waits_in gid w && w.position == k)

-- The n waiting users of the group stand at the positions 1, 2, …, n, one at each.
abbrev pub IsQueue : ℕ → List WaitlistEntry → Type 0
IsQueue gid ws =
    (k : ℕ) → position_count gid k ws ≡ (if leb 1 k && leb k (waiting_count gid ws) then 1 else 0)

abbrev pub HasEntryKeys : Db → Type 0
HasEntryKeys db = HasUniqueKeys (λ (w : WaitlistEntry). w.id) db.waitlist

close_gap-count :
    (gid pos k : ℕ) (ws : List WaitlistEntry)
    → position_count gid pos ws ≡ 0
    → position_count gid k (close_gap gid pos ws)
      ≡ (if ltb k pos then position_count gid k ws else position_count gid (suc k) ws)
unfolding close_gap count_by update_where
close_gap-count gid pos k [] z = ground arith
close_gap-count gid pos k (w ∷ ws) z = ground (arith, close_gap-count gid pos k ws)

close_gap-waiting :
    (gid pos : ℕ) (ws : List WaitlistEntry)
    → waiting_count gid (close_gap gid pos ws) ≡ waiting_count gid ws
unfolding close_gap
close_gap-waiting gid pos ws = count_by-update (waits_in gid) _ _ ws (λ w e. refl)

close_after :
    (gid uid : ℕ) (ws ws' : List WaitlistEntry) (e : WaitlistEntry)
    → find (waits gid uid) ws ≡ some e
    → HasUniqueKeys (λ (w : WaitlistEntry). w.id) ws
    → IsQueue gid ws
    → ws'
      ≡ close_gap gid e.position (save_entry (record e { status = WaitlistStatus.cancelled }) ws)
    → IsQueue gid ws'
close_after gid uid ws ws' e f keys q made k = ground (
  arith,
  find-holds (waits gid uid) ws f,
  ap (position_count gid k) made,
  ap (waiting_count gid) made,
  close_gap-count gid e.position k rest gone,
  close_gap-waiting gid e.position rest,
  saved (waits_in gid),
  saved (stands k),
  saved (stands (suc k)),
  saved (stands e.position),
  q k,
  q (suc k),
  q e.position,
)
  where
    idle : WaitlistEntry
    idle = record e { status = WaitlistStatus.cancelled }

    rest : List WaitlistEntry
    rest = save_entry idle ws

    stands : ℕ → WaitlistEntry → Bool
    stands j w = waits_in gid w && w.position == j

    saved :
        (p : WaitlistEntry → Bool)
        → count_by p rest + (if p e then 1 else 0) ≡ count_by p ws + (if p idle then 1 else 0)
    saved p = count-save (λ (w : WaitlistEntry). w.id) p (waits gid uid) ws idle f refl keys

    gone : position_count gid e.position rest ≡ 0
    gone = ground (
      arith,
      find-holds (waits gid uid) ws f,
      saved (stands e.position),
      q e.position,
      ==_refl e.position,
    )

-- When a waiting user leaves, those who still wait stand at 1, 2, …, n - 1, one at each, if the
-- positions were 1, 2, …, n before and entry ids are unique.
pub leave_waitlist-IsQueue :
    (gid uid : ℕ) (db : Db) {db' : Db}
    → leave_waitlist gid uid db ≡ ok db'
    → HasEntryKeys db
    → IsQueue gid db.waitlist
    → IsQueue gid db'.waitlist
unfolding leave_waitlist
leave_waitlist-IsQueue gid uid db {db'} done keys q =
    elim (Option-cases (find (waits gid uid) db.waitlist)) [
      | inl missing ↦ absurd (ground arith)
      | inr (e, f) ↦ close_after gid uid db.waitlist db'.waitlist e f keys q (ground arith)
    ]

pub join_waitlist-grown :
    (limit gid uid wallet id : ℕ) (db : Db) {db' : Db} {pos : ℕ}
    → join_waitlist limit gid uid wallet id db ≡ ok (db', pos)
    → (pos ≡ waiting_count gid db.waitlist + 1)
      × (db'.waitlist ≡ db.waitlist ++ new_entry gid uid wallet id pos ∷ [])
unfolding join_waitlist
join_waitlist-grown limit gid uid wallet id db done = ground arith

-- A joining user takes the position behind all others, and the positions 1, 2, …, n become 1, 2,
-- …, n + 1.
pub join_waitlist-IsQueue :
    (limit gid uid wallet id : ℕ) (db : Db) {db' : Db} {pos : ℕ}
    → join_waitlist limit gid uid wallet id db ≡ ok (db', pos)
    → IsQueue gid db.waitlist
    → (pos ≡ waiting_count gid db.waitlist + 1) × IsQueue gid db'.waitlist
unfolding count_by
join_waitlist-IsQueue limit gid uid wallet id db {db'} {pos} done q =
    let (last, grown) = join_waitlist-grown limit gid uid wallet id db done in
    let row : WaitlistEntry = new_entry gid uid wallet id pos in
    (
      last,
      λ k. ground (
        arith,
        last,
        ap (position_count gid k) grown,
        ap (waiting_count gid) grown,
        count_by-append (λ w. waits_in gid w && w.position == k) db.waitlist (row ∷ []),
        count_by-append (waits_in gid) db.waitlist (row ∷ []),
        q k,
        ==_refl gid,
      ),
    )

pub join_waitlist-keeps :
    (limit gid uid wallet id pos : ℕ) (db : Db) {db' : Db}
    → join_waitlist limit gid uid wallet id db ≡ ok (db', pos)
    → (db'.groups ≡ db.groups) × (db'.memberships ≡ db.memberships)
unfolding join_waitlist
join_waitlist-keeps limit gid uid wallet id pos db e = ground arith

pub leave_waitlist-keeps :
    (gid uid : ℕ) (db : Db) {db' : Db}
    → leave_waitlist gid uid db ≡ ok db'
    → (db'.groups ≡ db.groups) × (db'.memberships ≡ db.memberships)
unfolding leave_waitlist
leave_waitlist-keeps gid uid db e = ground arith

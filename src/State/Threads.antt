-- ===== src/State/Threads.antt =====
-- Threads in the state cache: `ThreadListSync` and `ThreadMembersUpdate` of state.go.
use text.Mathlib.Text.{◌==◌ as str_eq}
use dgo.Prelude.{
  ℕ, zero, suc, ◌+◌, ◌-◌, String, Bool, true, false, List, [], ◌∷◌, ◌++◌, Option, none, some,
  length, take, drop, get_elem?, ltb, not, ◌||◌, if◌then◌else◌,
}
use dgo.Prelude.Int.{ℤ}
use dgo.Prelude.Assoc.{Assoc, lookup, insert, erase}
use dgo.State.{
  Slice, items, push, Channel, ThreadMember, State, StateError, state_not_found, panicked,
  set_guild, set_channel,
}
use dgo.State.Guilds.{channel_id, guild}
use dgo.State.Members.{member_add, presence_add}
use dgo.State.Channels.{channel}

pub record ThreadListSync : Type 0 where
  pub guild_id : String
  pub channel_ids : Slice String
  pub threads : List ℕ
  pub members : List ThreadMember

unfoldable pub any_of : List String → String → Bool
any_of [] k = false
any_of (v ∷ vs) k = str_eq v k || any_of vs k

-- The threads that are kept, and the channel map without the others. The third part says that a thread
-- without metadata was met, a nil pointer.
pub record Synced : Type 0 where
  pub channel_map : Assoc ℕ
  pub kept : List ℕ
  pub nil_metadata : Bool

-- A thread stays when it is not archived, the event names channels, and its own is not one of them.
abbrev pub stays : Slice String → Bool → String → Bool
stays none archived parent_id = false
stays (some ids) true parent_id = false
stays (some ids) false parent_id = not (any_of ids parent_id)

unfoldable pub sync_loop : (ℕ → Channel) → Slice String → List ℕ → Assoc ℕ → List ℕ → Synced
unfolding any_of erase
sync_loop heap ids [] m kept = record { channel_map = m; kept = kept; nil_metadata = false }
sync_loop heap ids (t ∷ ts) m kept =
    let stop : Synced = record { channel_map = m; kept = kept; nil_metadata = true } in
    elim (heap t).thread_metadata [
      | none ↦ stop
      | some archived ↦
          let stay = stays ids archived (heap t).parent_id in
          sync_loop heap ids ts (if stay then m else erase (heap t).id m)
            (if stay then kept ++ t ∷ [] else kept)
    ]

unfoldable pub add_threads : State → ℕ → List ℕ → State
unfolding insert
add_threads s g [] = s
add_threads s g (t ∷ ts) =
    add_threads
      (set_guild (record s { channel_map = insert (channel_id s t) t s.channel_map }) g
        (record (s.guild_at g) { threads = push (s.guild_at g).threads t }))
      g ts

unfoldable pub set_thread_member : State → ThreadMember → State
unfolding lookup
set_thread_member s m = elim (lookup m.id s.channel_map) [
  | none ↦ s
  | some c ↦ set_channel s c (record (s.channel_at c) { member = some m })
]

unfoldable pub set_thread_members : State → List ThreadMember → State
unfolding set_thread_member
set_thread_members s [] = s
set_thread_members s (m ∷ ms) = set_thread_members (set_thread_member s m) ms

-- The kept threads were written over the first places of the array.
abbrev pub with_threads : State → ℕ → Synced → Slice ℕ → State
with_threads s g synced threads =
    set_guild (record s { channel_map = synced.channel_map }) g
      (record (s.guild_at g) { threads = threads })

unfoldable pub finish_sync : State → ℕ → ThreadListSync → Synced → State × Option StateError
unfolding add_threads set_thread_members
finish_sync s g tls synced =
    let threads = (s.guild_at g).threads in
    let overwritten : Slice ℕ = elim threads [
      | none ↦ none
      | some ts ↦ some (synced.kept ++ drop (length synced.kept) ts)
    ] in
    let shortened : Slice ℕ = elim threads [ none ↦ none | some _ ↦ some synced.kept ] in
    if synced.nil_metadata then (with_threads s g synced overwritten, some panicked) else (
      set_thread_members (add_threads (with_threads s g synced shortened) g tls.threads)
          tls.members,
      none,
    )

unfoldable pub thread_list_sync : State → ThreadListSync → State × Option StateError
unfolding guild sync_loop finish_sync
thread_list_sync s tls = elim (guild s tls.guild_id) [
  | none ↦ (s, some state_not_found)
  | some g ↦
      finish_sync s g tls
        (sync_loop s.channel_at tls.channel_ids (items (s.guild_at g).threads) s.channel_map [])
]

pub record AddedThreadMember : Type 0 where
  pub thread_member : ThreadMember
  pub member : Option ℕ
  pub presence : Option ℕ

pub record ThreadMembersUpdate : Type 0 where
  pub id : String
  pub guild_id : String
  pub member_count : ℤ
  pub added_members : List AddedThreadMember
  pub removed_members : List String

-- The array that the loop reads, how many of it are the members now, and whether a slice was cut out of
-- range.
pub record Cutting : Type 0 where
  pub array : List ThreadMember
  pub len : ℕ
  pub out_of_range : Bool

-- `append(thread.Members[:idx], thread.Members[idx+1:]...)` moves the later members one place down in the
-- same array.
unfoldable pub cut_at : ℕ → List ThreadMember → ℕ → List ThreadMember
cut_at i array len = take i array ++ (drop (i + 1) (take len array) ++ drop (len - 1) array)

-- `range` took the length before the loop, so that it reads on in the array. Where an index is out of
-- the array, which does not occur, nothing is done.
unfoldable pub remove_members : ℕ → ℕ → List String → List ThreadMember → ℕ → Cutting
unfolding cut_at any_of
remove_members zero i removed array len = record { array = array; len = len; out_of_range = false }
remove_members (suc rounds) i removed array len =
    let skip = remove_members rounds (i + 1) removed array len in
    let cut = remove_members rounds (i + 1) removed (cut_at i array len) (len - 1) in
    let stop : Cutting = record { array = array; len = len; out_of_range = true } in
    elim (get_elem? array i) [
      | none ↦ skip
      | some m ↦ if any_of removed m.id then (if ltb i len then cut else stop) else skip
    ]

unfoldable pub add_member : State → Option ℕ → State × Option StateError
add_member s none = (s, none)
add_member s (some a) = member_add s a

unfoldable pub add_presence : State → String → Option ℕ → State × Option StateError
add_presence s k none = (s, none)
add_presence s k (some a) = presence_add s k a

unfoldable pub add_members : State → ℕ → String → List AddedThreadMember → State × Option StateError
unfolding add_member add_presence
add_members s c k [] = (s, none)
add_members s c k (added ∷ others) =
    let channel = record (s.channel_at c) {
      members = push (s.channel_at c).members added.thread_member;
    } in
    let (s1, member_error) = add_member (set_channel s c channel) added.member in
    let (s2, presence_error) = add_presence s1 k added.presence in
    let rest = add_members s2 c k others in
    elim member_error [
      | some e ↦ (s1, some e)
      | none ↦ elim presence_error [ some e ↦ (s2, some e) | none ↦ rest ]
    ]

unfoldable pub cut_members : Channel → Cutting → Channel
cut_members c cutting = record c {
  members = elim c.members [ none ↦ none | some _ ↦ some (take cutting.len cutting.array) ];
}

unfoldable pub finish_update : State × Option StateError → ℕ → ℤ → State × Option StateError
finish_update (s, some e) c count = (s, some e)
finish_update (s, none) c count =
    (set_channel s c (record (s.channel_at c) { member_count = count }), none)

unfoldable pub thread_members_update : State → ThreadMembersUpdate → State × Option StateError
unfolding channel remove_members add_members cut_members finish_update
thread_members_update s tmu = elim (channel s tmu.id) [
  | none ↦ (s, some state_not_found)
  | some c ↦
      let members = items (s.channel_at c).members in
      let cutting =
        remove_members (length members) 0 tmu.removed_members members (length members) in
      let s' = set_channel s c (cut_members (s.channel_at c) cutting) in
      if cutting.out_of_range
      then (s', some panicked)
      else finish_update (add_members s' c tmu.guild_id tmu.added_members) c tmu.member_count
]

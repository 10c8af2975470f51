-- ===== src/Repository/Plan/Walk.antt =====
-- The whole walk: what a plan holds when BuildPlan returns it
-- (server/internal/backup/repository.go).
use backup_x.Base.{
  ◌+◌, ◌≤◌, ◌≡◌, refl, sym, ◌∙◌, ap, subst, Bool, true, ◌&&◌, inl, inr, List, [], ◌∷◌, Option, none,
  some, All, All-snoc, arith, Bool-cases,
}
use backup_x.Base.Text.{Text}
use backup_x.Base.Int.{pos}
use backup_x.Chunker.{
  Chunker, Source, SplitEnd, finished, context_cancelled, emit_failed, read_failed, bytes_left,
  split,
}
use backup_x.Chunker.Streaming.{content}
use backup_x.Repository.{
  Bytes, RepositoryStore, PlanChunk, RepositoryEntry, Tools, repository_chunk_max,
}
use backup_x.Repository.Index.{is_compression}
use backup_x.Repository.Paths.{clean}
use backup_x.Repository.Snapshot.{file_kind, directory_kind, symlink_kind}
use backup_x.Repository.Plan.{
  Planning, Visited, visited, skip_dir, walk_error, add_chunk, add_entry, add_file, add_by_kind,
  is_finished,
}
use backup_x.Repository.Files.{FileInfo, FileKind, directory, special, symlink, regular}
use backup_x.Repository.Plan.Sound.{IsPlanned, IsSound}
use backup_x.Repository.Plan.Contents.{file_bytes, HasNoCollision, IsReading, split-IsReading}

is_finished→eq : (why : SplitEnd) → is_finished why ≡ true → why ≡ finished
is_finished→eq finished h = refl
is_finished→eq context_cancelled h = absurd (cc)
is_finished→eq emit_failed h = absurd (cc)
is_finished→eq read_failed h = absurd (cc)
is_finished→eq bytes_left h = absurd (cc)

module _ (tools : Tools) (store : RepositoryStore) (compression : Text) (encrypted : Bool)
    (V : FileInfo → Type 0) where
  -- A file entry holds the bytes of a file that the walk visited, under that file's path.
  pub record IsFileOf (spool : Bytes) (chunks : List (Text × PlanChunk)) (e : RepositoryEntry)
      : Type 0 where
    pub info : FileInfo
    pub source : Source
    pub relative : Text
    pub on_walk : V info
    pub is_regular : info.kind ≡ regular (some source) true
    pub at : info.relative ≡ some relative
    pub same_path : e.path ≡ clean relative
    pub same_size : e.size ≡ pos info.size
    pub whole : file_bytes spool chunks e.chunks ≡ content source

  abbrev pub IsRecorded : Bytes → List (Text × PlanChunk) → RepositoryEntry → Type 0
  IsRecorded spool chunks e = (e.kind ≡ file_kind) → IsFileOf spool chunks e

  pub record IsWalked (p : Planning) : Type 0 where
    pub sound : IsSound tools store compression encrypted p
    pub recorded : All (IsRecorded p.spool p.chunks) p.entries

  -- What holds of the plan that the callback leaves, if it goes on.
  abbrev pub Leaves : Visited → Type 0
  Leaves (visited p) = IsWalked p
  Leaves (skip_dir p) = IsWalked p
  Leaves walk_error = Unit

  abbrev pub LeavesPlan : Option Planning → Type 0
  LeavesPlan none = Unit
  LeavesPlan (some p) = IsWalked p

  add_entry-Leaves :
      (path kind link_target : Text) (info : FileInfo) (p : Planning)
      → IsWalked p
      → ((kind ≡ file_kind)
          → IsFileOf p.spool p.chunks (record {
            path = path;
            kind = kind;
            mode = info.mode;
            mod_time = info.mod_time;
            size = pos info.size;
            link_target = link_target;
            chunks = p.entry_chunks;
          }))
      → Leaves (add_entry path kind link_target info p)
  unfolding add_entry
  add_entry-Leaves path kind link_target info p w new = record {
    sound = record {
      offset = w.sound.offset;
      unique = w.sound.unique;
      spool_ok = w.sound.spool_ok;
      named = w.sound.named;
      entries_named = All-snoc _ p.entries _ w.sound.entries_named w.sound.named;
    };
    recorded = All-snoc _ p.entries _ w.recorded new;
  }

  -- Reading a file leaves the recorded entries as they are.
  module _ (start p : Planning) (done : Bytes)
      (r : IsReading tools store compression encrypted start p done) where
    All-IsRecorded :
        (es : List RepositoryEntry)
        → All
            (λ (e : RepositoryEntry).
              IsPlanned tools store compression encrypted start.chunks e.chunks)
            es
        → All (IsRecorded start.spool start.chunks) es
        → All (IsRecorded p.spool p.chunks) es
    All-IsRecorded [] planned h = tt
    All-IsRecorded (e ∷ es) planned h = (
      λ k.
          let f = h.0 k in
          record {
            info = f.info;
            source = f.source;
            relative = f.relative;
            on_walk = f.on_walk;
            is_regular = f.is_regular;
            at = f.at;
            same_path = f.same_path;
            same_size = f.same_size;
            whole = (r.keeps e.chunks planned.0).1 ∙ f.whole;
          },
      All-IsRecorded es planned.1 h.1,
    )

    IsReading-IsWalked : IsWalked start → IsWalked p
    IsReading-IsWalked w = record {
      sound = r.sound;
      recorded =
          subst (All (IsRecorded p.spool p.chunks)) (sym r.same_entries)
            (All-IsRecorded start.entries w.sound.entries_named w.recorded);
    }

  module _ (unique_ids : HasNoCollision tools store) (known : is_compression compression ≡ true)
      (chunker : Chunker) (m : chunker.min_size ≤ chunker.max_size)
      (max : chunker.max_size ≤ repository_chunk_max) (cancelled : Planning → Bool) where
    add_file-Leaves :
        (path : Text) (info : FileInfo) (source : Option Source) (closes : Bool) (relative : Text)
        (p : Planning)
        → IsWalked p
        → p.entry_chunks ≡ []
        → V info
        → info.kind ≡ regular source closes
        → info.relative ≡ some relative
        → path ≡ clean relative
        → Leaves
            (add_file tools store compression encrypted chunker cancelled path info source closes p)
    unfolding add_file
    add_file-Leaves path info none closes relative p w empty v k a same = tt
    add_file-Leaves path info (some source) closes relative p w empty v k a same =
        let start = record p { logical_size = p.logical_size + info.size } in
        let begun : IsWalked start = record {
          sound = record {
            offset = w.sound.offset;
            unique = w.sound.unique;
            spool_ok = w.sound.spool_ok;
            named = w.sound.named;
            entries_named = w.sound.entries_named;
          };
          recorded = w.recorded;
        } in
        let r =
          split chunker cancelled (add_chunk tools store compression encrypted) start source in
        elim (Bool-cases (is_finished r.1 && closes)) [
          | inr fails ↦ rw fails tt
          | inl ends ↦
              let reading =
                split-IsReading tools store compression encrypted unique_ids known chunker cancelled
                  start source m max begun.sound empty (is_finished→eq r.1 (ground arith)) in
              rw ends (
                add_entry-Leaves path file_kind [] info r.0
                  (IsReading-IsWalked start r.0 (content source) reading begun)
                  (λ e. record {
                    info = info;
                    source = source;
                    relative = relative;
                    on_walk = v;
                    is_regular = k ∙ ap (regular (some source)) (ground arith);
                    at = a;
                    same_path = same;
                    same_size = refl;
                    whole = reading.read_so_far;
                  }))
        ]

    pub add_by_kind-Leaves :
        (path : Text) (info : FileInfo) (kind : FileKind) (relative : Text) (p : Planning)
        → IsWalked p
        → p.entry_chunks ≡ []
        → V info
        → info.kind ≡ kind
        → info.relative ≡ some relative
        → path ≡ clean relative
        → Leaves (add_by_kind tools store compression encrypted chunker cancelled path info kind p)
    unfolding add_by_kind
    add_by_kind-Leaves path info directory relative p w empty v k a same =
        add_entry-Leaves path directory_kind [] info p w (λ e. absurd (cc))
    add_by_kind-Leaves path info (symlink none) relative p w empty v k a same = tt
    add_by_kind-Leaves path info (symlink (some target)) relative p w empty v k a same =
        add_entry-Leaves path symlink_kind target info p w (λ e. absurd (cc))
    add_by_kind-Leaves path info (regular source closes) relative p w empty v k a same =
        add_file-Leaves path info source closes relative p w empty v k a same
    add_by_kind-Leaves path info special relative p w empty v k a same = record {
      sound = record {
        offset = w.sound.offset;
        unique = w.sound.unique;
        spool_ok = w.sound.spool_ok;
        named = w.sound.named;
        entries_named = w.sound.entries_named;
      };
      recorded = w.recorded;
    }

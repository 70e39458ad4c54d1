-- ===== src/Reporter/Queue.antt =====
-- The queue keeps its bounds, and only sound work stands in it.
use mathlib.Core.Path.{subst}
use caddy_storage_redis.Prelude.{
  ℕ, ◌≤◌, ◌<◌, Bytes, List, [], ◌∷◌, Bool, true, false, not, ◌||◌, ◌≡◌, ◌⊎◌, ◌==◌, refl, sym,
  equal_iff, length, arith, Bool-cases, inl, inr, ltb, leb,
}
use caddy_storage_redis.Dict.{
  find, put, is_some, IsMap, Each, length-put, length-remove_found, length-keep, keep-IsMap,
  put-IsMap, remove-IsMap, put-Each, keep-Each,
}
use caddy_storage_redis.Health.{MismatchCandidate}
use caddy_storage_redis.Reporter.{
  CertificateWork, ReporterState, is_acceptable, is_live, is_wanted, prune, oldest_of, make_room,
  new_work, without_paths, is_recent, enqueue_digest, try_enqueue,
}
use caddy_storage_redis.Reporter.Work.{IsWork}

-- The work under the name of a host is its own, sound, and without the paths of the files.
pub record IsEntry (host : Bytes) (w : CertificateWork) : Type 0 where
  pub name : (w.candidate).hostname ≡ host
  pub sound : IsWork w
  pub no_certificate_path : (w.candidate).certificate_path ≡ []
  pub no_key_path : (w.candidate).key_path ≡ []

pub record IsQueue (s : ReporterState) : Type 0 where
  pub work_map : IsMap s.work
  pub dedupe_map : IsMap s.dedupe
  pub work_size : length s.work ≤ 256
  pub dedupe_size : length s.dedupe ≤ 1024
  pub entries : Each IsEntry s.work

pub prune-IsQueue : (now : ℕ) (s : ReporterState) → IsQueue s → IsQueue (prune now s)
unfolding prune
prune-IsQueue now s q = record {
  work_map = keep-IsMap (is_wanted now) s.work q.work_map;
  dedupe_map = keep-IsMap (is_live now) s.dedupe q.dedupe_map;
  work_size = omega (arith, length-keep (is_wanted now) s.work, q.work_size);
  dedupe_size = omega (arith, length-keep (is_live now) s.dedupe, q.dedupe_size);
  entries = keep-Each IsEntry (is_wanted now) s.work q.entries;
}

-- Only what does not belong to the queue has changed.
pub same-IsQueue :
    (s t : ReporterState) → s.work ≡ t.work → s.dedupe ≡ t.dedupe → IsQueue s → IsQueue t
same-IsQueue s t work dedupe q = record {
  work_map = subst IsMap work q.work_map;
  dedupe_map = subst IsMap dedupe q.dedupe_map;
  work_size = rw (sym work) q.work_size;
  dedupe_size = rw (sym dedupe) q.dedupe_size;
  entries = subst (Each IsEntry) work q.entries;
}

-- The search for the oldest entry ends on an entry, if there is one that is not of the zero time.
oldest_of-is_in :
    (k : Bytes) (t : ℕ) (m : List (Bytes × ℕ))
    → (is_some (find (oldest_of (k, t) m).0 m) ≡ true) ⊎ ((oldest_of (k, t) m).0 ≡ k)
unfolding oldest_of find
oldest_of-is_in k t [] = inr refl
oldest_of-is_in k t ((j, u) ∷ m) = elim (Bool-cases (t == 0 || ltb u t)) [
  | inl older ↦ ground (arith, oldest_of-is_in j u m, equal_iff j (oldest_of (j, u) m).0)
  | inr newer ↦ ground (arith, oldest_of-is_in k t m, equal_iff j (oldest_of (k, t) m).0)
]

oldest_of-found :
    (j : Bytes) (u : ℕ) (m : List (Bytes × ℕ))
    → is_some (find (oldest_of ([], 0) ((j, u) ∷ m)).0 ((j, u) ∷ m)) ≡ true
unfolding oldest_of find
oldest_of-found j u m = ground (arith, oldest_of-is_in j u m, equal_iff j (oldest_of (j, u) m).0)

-- A full map gives up an entry.
length-make_room : (m : List (Bytes × ℕ)) → length m ≤ 1024 → length (make_room m) < 1024
unfolding make_room
length-make_room [] h = omega arith
length-make_room ((j, u) ∷ m) h = elim (Bool-cases (leb 1024 (length ((j, u) ∷ m)))) [
  | inr room ↦ rw (room, make_room) (ground arith)
  | inl full ↦
      let less =
        length-remove_found (oldest_of ([], 0) ((j, u) ∷ m)).0 ((j, u) ∷ m)
          (oldest_of-found j u m) in
      rw (full, make_room) (omega (arith, h, less))
]

make_room-IsMap : (m : List (Bytes × ℕ)) → IsMap m → IsMap (make_room m)
unfolding make_room
make_room-IsMap m h = ground (arith, remove-IsMap (oldest_of ([], 0) m).0 m h)

new_work-IsEntry :
    (now : ℕ) (c : MismatchCandidate)
    → is_acceptable c ≡ true
    → IsEntry c.hostname (new_work now (without_paths c))
unfolding is_acceptable
new_work-IsEntry now c h = record {
  name = refl;
  sound = record {
    acceptable = h;
    lifetime = omega arith;
    tries = omega arith;
    event = λ e n. cc n;
  };
  no_certificate_path = refl;
  no_key_path = refl;
}

put-size {ℓ} :
    {V : Type ℓ} (k : Bytes) (v : V) (m : List (Bytes × V)) (n : ℕ)
    → length m < n
    → length (put k v m) ≤ n
put-size k v m n h = ground (arith, length-put k v m)

pub enqueue_digest-IsQueue :
    (now : ℕ) (digest : Bytes) (c : MismatchCandidate) (s : ReporterState)
    → is_acceptable c ≡ true
    → IsQueue s
    → IsQueue (enqueue_digest now digest (without_paths c) s).1
unfolding enqueue_digest
enqueue_digest-IsQueue now digest c s h q =
    let t = prune now s in
    let p = prune-IsQueue now s q in
    elim (Bool-cases (
      is_some (find c.hostname t.work)
      || is_recent now (find digest t.dedupe)
      || leb 256 (length t.work))) [
        | inl refused ↦ rw (refused, enqueue_digest) (same-IsQueue t _ refl refl p)
        | inr taken ↦
            rw (taken, enqueue_digest)
              (record {
                work_map = put-IsMap c.hostname (new_work now (without_paths c)) t.work p.work_map;
                dedupe_map =
                    put-IsMap digest _ (make_room t.dedupe) (make_room-IsMap t.dedupe p.dedupe_map);
                work_size = put-size c.hostname _ t.work 256 (ground arith);
                dedupe_size =
                    put-size digest _ (make_room t.dedupe) 1024
                      (length-make_room t.dedupe p.dedupe_size);
                entries = put-Each IsEntry c.hostname _ t.work (new_work-IsEntry now c h) p.entries;
              })
      ]

holds : (a b c : Bool) → a || b || not c ≡ false → c ≡ true
holds a b c h = ground arith

-- Whatever is offered, the queue keeps its bounds and holds sound work only.
pub try_enqueue-IsQueue :
    (digest : MismatchCandidate → Bytes) (free : Bool) (now : ℕ) (c : MismatchCandidate)
    (s : ReporterState)
    → IsQueue s
    → IsQueue (try_enqueue digest free now c s).1
unfolding try_enqueue
try_enqueue-IsQueue digest free now c s q =
    elim (Bool-cases (not free || s.cancelled || not (is_acceptable c))) [
      | inl refused ↦ rw (refused, try_enqueue) (same-IsQueue s _ refl refl q)
      | inr taken ↦
          rw (taken, try_enqueue)
            (enqueue_digest-IsQueue now (digest (without_paths c)) c s
              (holds (not free) s.cancelled (is_acceptable c) taken) q)
    ]

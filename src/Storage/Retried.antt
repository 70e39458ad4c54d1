-- ===== src/Storage/Retried.antt =====
-- `Store` and `Delete` with the retry on a fresh client.
use mathlib.Core.Path.{subst}
use caddy_storage_redis.Prelude.{ℕ, Bytes, List, ◌∷◌, true, ◌≡◌, sym, ◌∙◌}
use caddy_storage_redis.Go.FilePath.{path_of}
use caddy_storage_redis.Go.FilePath.Segments.{IsPath}
use caddy_storage_redis.Go.Errors.{Error}
use caddy_storage_redis.Exec.{err, Exec}
use caddy_storage_redis.Exec.Laws.{Runs}
use caddy_storage_redis.Platform.{Platform}
use caddy_storage_redis.Platform.Redis.{Contents, IsLawful, Empty, Unchanged, Unchanged-trans}
use caddy_storage_redis.Client.{Machine, RedisStorage}
use caddy_storage_redis.Client.Laws.{build_client-Keeps}
use caddy_storage_redis.Reconnect.{with_reconnect_on_closed, is_client_closed_err, count_reconnect}
use caddy_storage_redis.Reconnect.Laws.{Attempts, first, second, with_reconnect_on_closed-Attempts}
use caddy_storage_redis.Directory.{prefix_key}
use caddy_storage_redis.Directory.Index.{Indexed-grows}
use caddy_storage_redis.Storage.{put_record, delete_record, delete}
use caddy_storage_redis.Storage.Sound.{IsSound}
use caddy_storage_redis.Storage.Effects.{
  HasStored, HasDropped, put_record-HasStored, delete_record-HasDropped,
}

module _ (P : Platform) (V : Contents P) where
  -- An attempt that fails because the client is closed has written nothing.
  abbrev pub WritesNothing : {A : Type 0} → Exec (Machine P) A → Machine P → Type 0
  WritesNothing m s =
      (e : Error) (u : Machine P)
      → m s ≡ (err e, u)
      → is_client_closed_err e ≡ true
      → Unchanged P V s.world u.world

  IsSound-Unchanged : {w u : P.World} → Unchanged P V w u → IsSound P V w → IsSound P V u
  IsSound-Unchanged {w} {u} same sound = record {
    linked = record {
      up = λ b a ys m hp e.
          same.members _ _ ∙ sound.linked.up b a ys m hp (sym (same.members _ m) ∙ e);
    };
    no_dangling = record {
      filled = λ b a ys hp e emptied.
          sound.no_dangling.filled b a ys hp (sym (same.members _ _) ∙ e)
            (λ m. sym (same.members _ m) ∙ emptied m);
    };
    values = λ b a ys hp own e.
        Indexed-grows P V w u (λ j m k. same.members j m ∙ k) b (a ∷ ys)
          (sound.values b a ys hp own (λ gone. e (same.strings _ ∙ gone)));
    listed = λ b a ys hp e gone.
        sound.listed b a ys hp (sym (same.members _ b) ∙ e) (sym (same.strings _) ∙ gone);
    names = λ a m ys hp e. sound.names a m ys hp (sym (same.members _ m) ∙ e);
  }

  Empty-Unchanged : {w u : P.World} (k : Bytes) → Unchanged P V w u → Empty P V w k → Empty P V u k
  Empty-Unchanged k same free m = same.members k m ∙ free m

  -- A property of what an operation does is one of its retry as well, if it does not see what is
  -- left unchanged before and after.
  module _ (L : IsLawful P V) {A : Type 0} (op : P.Client → Exec (Machine P) A)
      (rs : RedisStorage P) (Pre : P.World → Type 0) (Post : P.World → P.World → Type 0)
      (pre : (w u : P.World) → Unchanged P V w u → Pre w → Pre u)
      (post : (w v z u : P.World) → Unchanged P V w v → Unchanged P V z u → Post v z → Post w u)
      (done : (c : P.Client) (s t : Machine P) (a : A)
        → Pre s.world
        → Runs (op c) s a t
        → Post s.world t.world) where
    Attempts-Post :
        (s t : Machine P) (a : A)
        → Pre s.world
        → WritesNothing (op rs.client) s
        → Attempts P op rs s a t
        → Post s.world t.world
    Attempts-Post s t a p nothing (first ran) = done rs.client s t a p ran
    Attempts-Post s t a p nothing (second e u fresh v z failed closed built ran ends) =
        let before = Unchanged-trans P V (nothing e u failed closed) (
          subst (λ x. Unchanged P V u.world x.1.world) built
            ((build_client-Keeps P V L rs.config).at u)) in
        let after : Unchanged P V z.world t.world =
          subst (λ x. Unchanged P V z.world x.world) (sym ends) (L.close_keeps fresh z.world) in
        post s.world v.world z.world t.world before after
          (done fresh (count_reconnect P v) z a (pre s.world v.world before p) ran)

module _ (P : Platform) (V : Contents P) (L : IsLawful P V) (rs : RedisStorage P) (key b : Bytes)
    (rest : List Bytes) (h : IsPath (b ∷ rest))
    (place : prefix_key rs.config key ≡ path_of (b ∷ rest)) where
  -- What an operation under the key starts from: a sound index, and a key that is not a directory,
  -- that is, no name is listed in a set of its own.
  pub record IsReady (w : P.World) : Type 0 where
    pub sound : IsSound P V w
    pub free : Empty P V w (path_of (b ∷ rest))

  pub IsReady-Unchanged : (w u : P.World) → Unchanged P V w u → IsReady w → IsReady u
  IsReady-Unchanged w u same ready = record {
    sound = IsSound-Unchanged P V same ready.sound;
    free = Empty-Unchanged P V (path_of (b ∷ rest)) same ready.free;
  }

  pub HasStored-Unchanged :
      (value : Bytes) (w v z u : P.World)
      → Unchanged P V w v
      → Unchanged P V z u
      → HasStored P V b rest value v z
      → HasStored P V b rest value w u
  HasStored-Unchanged value w v z u before after done = record {
    sound = IsSound-Unchanged P V after done.sound;
    value_at = after.strings _ ∙ done.value_at;
    indexed = Indexed-grows P V z u (λ j m k. after.members j m ∙ k) b rest done.indexed;
    others = λ j other. after.strings j ∙ done.others j other ∙ before.strings j;
  }

  HasDropped-Unchanged :
      (w v z u : P.World)
      → Unchanged P V w v
      → Unchanged P V z u
      → HasDropped P V b rest v z
      → HasDropped P V b rest w u
  HasDropped-Unchanged w v z u before after done = record {
    sound = IsSound-Unchanged P V after done.sound;
    missing = after.strings _ ∙ done.missing;
    unlisted = λ a ys same. after.members _ b ∙ done.unlisted a ys same;
    others = λ j other. after.strings j ∙ done.others j other ∙ before.strings j;
  }

  -- What follows a successful `put_record`, retried or not.
  pub put_retried-HasStored :
      (value : Bytes) (score : ℕ) (s t : Machine P)
      → IsReady s.world
      → WritesNothing P V (put_record P rs.config key value score rs.client) s
      → Runs (with_reconnect_on_closed P (put_record P rs.config key value score) rs) s tt t
      → HasStored P V b rest value s.world t.world
  put_retried-HasStored value score s t ready nothing r =
      Attempts-Post P V L (put_record P rs.config key value score) rs IsReady
        (HasStored P V b rest value) IsReady-Unchanged (HasStored-Unchanged value)
        (λ c x y a p ran.
          put_record-HasStored P V L rs.config key b rest h place c value score x y p.sound p.free
            ran)
        s t tt ready nothing
        (with_reconnect_on_closed-Attempts P (put_record P rs.config key value score) rs s r)

  -- From a sound index, under a key that is a clean relative path (no segment is empty, '.' or '..')
  -- and has no set of its own (no name is listed in it), a successful `Delete`, retried or not,
  -- leaves no value under the key and its name in no set above it, the index sound and the other
  -- values as they were; provided that an attempt that fails because the client is closed has
  -- written nothing.
  pub delete-HasDropped :
      (s t : Machine P)
      → IsReady s.world
      → WritesNothing P V (delete_record P rs.config key rs.client) s
      → Runs (delete P rs key) s tt t
      → HasDropped P V b rest s.world t.world
  unfolding delete
  delete-HasDropped s t ready nothing r =
      Attempts-Post P V L (delete_record P rs.config key) rs IsReady (HasDropped P V b rest)
        IsReady-Unchanged HasDropped-Unchanged
        (λ c x y a p ran.
          delete_record-HasDropped P V L rs.config key b rest h place c x y p.sound p.free ran)
        s t tt ready nothing
        (with_reconnect_on_closed-Attempts P (delete_record P rs.config key) rs s r)

-- ===== src/Feed.antt =====
-- The loop that feeds a file to a digest, as practica2/hmacsha1.c (`hmacsha1`) and
-- practica3/sign.c (`sha512`) write it.
pub mod Laws
use seguridad_en_redes.Base.{
  ℕ, zero, suc, length, ◌==◌, if◌then◌else◌, Bytes, M, pure, err, crash, ◌>>=◌, read_failed,
}
use seguridad_en_redes.Memory.{read_at, write_at}
use seguridad_en_redes.Posix.{File, failed, got, read}
use seguridad_en_redes.Crypto.{Digest}

module _ (D : Digest) where
  -- `for (;;)`: reads go through the buffer `text`; the result is the last `nr` and the context.
  unfoldable pub feed_loop : ℕ → File → Bytes → ℕ → D.Ctx → M (ℕ × D.Ctx)
  feed_loop zero f text text_len c = crash
  feed_loop (suc fuel) f text text_len c = elim (read f text_len) [
    | failed _ ↦ err read_failed
    | got chunk f' ↦ do
      text' ← write_at text 0 chunk
      fresh ← read_at text' 0 (length chunk)
      let rest = feed_loop fuel f' text' text_len (D.update c fresh)
      if length chunk == 0 then pure (length chunk, c) else rest
  ]

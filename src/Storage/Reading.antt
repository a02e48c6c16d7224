-- ===== src/Storage/Reading.antt =====
-- What read_private_bytes of governance_storage.py returns.
use subagent_governance.Base.{
  ℕ, zero, suc, ◌≤◌, Text, [], ◌∷◌, take, length, leb, true, ◌≡◌, refl, sym, ap, ◌∙◌, arith,
}
use subagent_governance.Material.Files.{is_regular}
use subagent_governance.Storage.{
  Checked, StorageError, refused, given, ◌>>=◌, demand, Metadata, Platform, owned_by_current_user,
  private_permissions_safe, check_metadata, Answer, Opened, or_absent, or_unreadable, read_opened,
  read_private_bytes,
}

-- A run that returns got past its first part.
module _ {A B : Type 0} where
  checked-eq-given :
      (first : Checked A) (rest : A → Checked B) (b : B)
      → (first >>= rest) ≡ given b
      → (a : A) × (first ≡ given a) × (rest a ≡ given b)
  checked-eq-given (given a) rest b h = (a, refl, h)
  checked-eq-given (refused e) rest b h = absurd (cc)

module _ (platform : Platform) where
  -- A regular file of the current user that no other user may open.
  pub record IsPrivate (m : Metadata) : Type 0 where
    pub regular : is_regular m.kind ≡ true
    pub owned : owned_by_current_user platform m ≡ true
    pub private : private_permissions_safe platform m ≡ true

  check_metadata-IsPrivate :
      (m : Metadata) (u : Unit {0}) → check_metadata platform m ≡ given u → IsPrivate m
  unfolding check_metadata
  check_metadata-IsPrivate m u h = record {
    regular = ground (arith, h);
    owned = ground (arith, h);
    private = ground (arith, h);
  }

  whole_take : (n : ℕ) (s : Text) → length (take (suc n) s) ≤ n → take (suc n) s ≡ s
  whole_take n [] h = refl
  whole_take zero (c ∷ s) h = absurd (omega arith)
  whole_take (suc n) (c ∷ s) h = ap (◌∷◌ c) (whole_take n s (omega arith))

  -- What a reading of a private file has found.
  pub record IsRead (max_bytes : ℕ) (found : Answer Metadata) (opened : Answer Opened) (raw : Text)
      : Type 0 where
    pub before : Metadata
    pub file : Opened
    pub status : Metadata
    pub found_before : found ≡ Answer.answered before
    pub opened_file : opened ≡ Answer.answered file
    pub found_status : file.status ≡ Answer.answered status
    pub private_before : IsPrivate before
    pub private_status : IsPrivate status
    pub whole : file.contents ≡ Answer.answered raw
    pub bounded : length raw ≤ max_bytes

  absent-eq-given :
      {A : Type 0} (e : StorageError) (o : Answer A) (a : A)
      → or_absent e o ≡ given a
      → o ≡ Answer.answered a
  absent-eq-given e (Answer.answered b) a h = ground (arith, h)
  absent-eq-given e Answer.absent a h = absurd (cc)
  absent-eq-given e Answer.failing a h = absurd (cc)

  unreadable-eq-given :
      {A : Type 0} (o : Answer A) (a : A) → or_unreadable o ≡ given a → o ≡ Answer.answered a
  unreadable-eq-given (Answer.answered b) a h = ground (arith, h)
  unreadable-eq-given Answer.absent a h = absurd (cc)
  unreadable-eq-given Answer.failing a h = absurd (cc)

  read_opened-found :
      (max_bytes : ℕ) (f : Opened) (raw : Text)
      → read_opened platform max_bytes f ≡ given raw
      → length raw ≤ max_bytes
      → (m : Metadata) × (f.status ≡ Answer.answered m)
        × IsPrivate m
        × (f.contents ≡ Answer.answered raw)
  unfolding read_opened
  read_opened-found max_bytes f raw h short =
      let (m, status, h₁) = checked-eq-given (or_unreadable f.status) _ raw h in
      let (u, checked, h₂) = checked-eq-given (check_metadata platform m) _ raw h₁ in
      let (contents, all, last) = checked-eq-given (or_unreadable f.contents) _ raw h₂ in
      let cut : take (suc max_bytes) contents ≡ raw = ground (arith, last) in
      let whole : contents ≡ raw = sym (whole_take max_bytes contents (rw cut short)) ∙ cut in
      (
        m,
        unreadable-eq-given f.status m status,
        check_metadata-IsPrivate m u checked,
        unreadable-eq-given f.contents contents all ∙ ap Answer.answered whole,
      )

  -- The bytes that a reading of a private file returns are all that the file holds, at most as many as
  -- allowed, and the file was regular, of the current user and closed to others, by its path before
  -- and by its descriptor after it was opened.
  pub read_private_bytes-IsRead :
      (max_bytes : ℕ) (found : Answer Metadata) (opened : Answer Opened) (raw : Text)
      → read_private_bytes platform max_bytes found opened ≡ given raw
      → IsRead max_bytes found opened raw
  unfolding read_private_bytes
  read_private_bytes-IsRead max_bytes found opened raw h =
      let (before, there, h₁) =
        checked-eq-given (or_absent StorageError.os_failure found) _ raw h in
      let (u, checked, h₂) = checked-eq-given (check_metadata platform before) _ raw h₁ in
      let (v, small, h₃) =
        checked-eq-given (demand (leb before.size max_bytes) StorageError.oversized) _ raw h₂ in
      let (file, open_there, h₄) =
        checked-eq-given (or_absent StorageError.unreadable opened) _ raw h₃ in
      let (raw', read, h₅) = checked-eq-given (read_opened platform max_bytes file) _ raw h₄ in
      let (w, short, last) =
        checked-eq-given (demand (leb (length raw') max_bytes) StorageError.oversized) _ raw h₅ in
      let same : raw' ≡ raw = ground (arith, last) in
      let bounded : length raw ≤ max_bytes = ground (arith, short, same) in
      let (status, found_status, private, whole) =
        read_opened-found max_bytes file raw (read ∙ ap given same) bounded in
      record {
        before = before;
        file = file;
        status = status;
        found_before = absent-eq-given StorageError.os_failure found before there;
        opened_file = absent-eq-given StorageError.unreadable opened file open_there;
        found_status = found_status;
        private_before = check_metadata-IsPrivate before u checked;
        private_status = private;
        whole = whole;
        bounded = bounded;
      }

-- ===== src/Fs/Dir/Link.antt =====
-- An entry added to a directory is found under its name.
use cs461_hw.Base.{ℕ, ◌/◌, ◌≡◌, ◌≤◌, ◌<◌}
use cs461_hw.Fs.{Dinode, Fs}
use cs461_hw.Fs.Spare.{Spare}
use cs461_hw.Fs.Content.{Devsw}
use cs461_hw.Fs.Dir.{dirent_size, Lookup}
use cs461_hw.Fs.Dir.Lookup.{entry_at, IsDirectory}

-- The search for a free entry ends at one, or at the end.
module _ (devsw : Devsw) (dp : Dinode) (fs : Fs) (d : IsDirectory dp fs) where
  abbrev Ends : (k : ℕ) → Type 0
  Ends k = (k ≤ dp.size / dirent_size) × (k < dp.size / dirent_size → (entry_at dp fs k).inum ≡ 0)

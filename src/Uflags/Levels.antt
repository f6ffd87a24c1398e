-- ===== src/Uflags/Levels.antt =====
-- What the flags of GetUFlagsFromLevel (src/channel.c) grant, against the level tests of the
-- ChannelCan functions.
use child.Prelude.{ℕ, ◌≡◌, true, arith, ◌≤◌, ◌<◌}
use child.Prelude.Int.{ℤ, pos, negsuc, le_ℤ}
use child.Uflags.{
  ChanLevels, get_uflags_from_level, chlev_owner, has, uflag_op, uflag_voice, uflag_halfop,
  uflag_acl, uflag_set, uflag_protect, uflag_invite,
}

-- The thresholds that grant rights are positive, in the order of the rights, and below a co-owner.
pub record IsOrdered (config : ChanLevels) : Type 0 where
  pub sadmin : ℕ
  pub admin : ℕ
  pub op : ℕ
  pub halfop : ℕ
  pub voice : ℕ
  pub invite : ℕ
  pub sadmin_is : config.chlev_sadmin ≡ pos sadmin
  pub admin_is : config.chlev_admin ≡ pos admin
  pub op_is : config.chlev_op ≡ pos op
  pub halfop_is : config.chlev_halfop ≡ pos halfop
  pub voice_is : config.chlev_voice ≡ pos voice
  pub invite_is : config.chlev_invite ≡ pos invite
  pub positive : 0 < invite
  pub invite_voice : invite ≤ voice
  pub voice_halfop : voice ≤ halfop
  pub halfop_op : halfop ≤ op
  pub op_admin : op ≤ admin
  pub admin_sadmin : admin ≤ sadmin
  pub sadmin_coowner : sadmin < 9999

-- Each right is granted by the flags exactly from its threshold on.
abbrev pub SameRights : ChanLevels → ℤ → ℕ → Type 0
SameRights config level uflags =
    (has uflags uflag_op ≡ le_ℤ config.chlev_op level)
    × (has uflags uflag_halfop ≡ le_ℤ config.chlev_halfop level)
    × (has uflags uflag_voice ≡ le_ℤ config.chlev_voice level)
    × (has uflags uflag_invite ≡ le_ℤ config.chlev_invite level)
    × (has uflags uflag_acl ≡ le_ℤ config.chlev_admin level)
    × (has uflags uflag_protect ≡ le_ℤ config.chlev_admin level)
    × (has uflags uflag_set ≡ le_ℤ config.chlev_sadmin level)

module _ (config : ChanLevels) (o : IsOrdered config) where
  below_zero : (n : ℕ) → SameRights config (negsuc n) (get_uflags_from_level config (negsuc n))
  unfolding get_uflags_from_level
  below_zero n =
      rw (o.sadmin_is, o.admin_is, o.op_is, o.halfop_is, o.voice_is, o.invite_is)
        (
          ground arith,
          ground arith,
          ground arith,
          ground arith,
          ground arith,
          ground arith,
          ground arith,
        )

  from_zero : (n : ℕ) → n ≤ 10000 → SameRights config (pos n) (get_uflags_from_level config (pos n))
  unfolding get_uflags_from_level
  from_zero n h =
      rw (o.sadmin_is, o.admin_is, o.op_is, o.halfop_is, o.voice_is, o.invite_is)
        (
          ground arith,
          ground arith,
          ground arith,
          ground arith,
          ground arith,
          ground arith,
          ground arith,
        )

-- The flags that a level stands for grant op, halfop, voice, invitation, access list, protection and
-- settings exactly at the levels at which a channel without flags grants them. The thresholds are
-- ordered, and the level is at most that of an owner.
get_uflags_from_level-SameRights :
    (config : ChanLevels) (level : ℤ)
    → IsOrdered config
    → le_ℤ level chlev_owner ≡ true
    → SameRights config level (get_uflags_from_level config level)
get_uflags_from_level-SameRights config (pos n) o h = from_zero config o n (ground arith)
get_uflags_from_level-SameRights config (negsuc n) o h = below_zero config o n

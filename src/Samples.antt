-- ===== src/Samples.antt =====
-- Documents that the tests of every component start from.
use learn_nest_js.Shared.{ℕ, true, false, none, []}
use learn_nest_js.Schemas.{User, UserRole}
use learn_nest_js.World.{World}

abbrev pub sample_user : ℕ → User
sample_user id = record {
  id = id;
  name = none;
  email = "";
  password = "";
  phone = none;
  has_password = true;
  bio = none;
  avatar = none;
  role = UserRole.user;
  is_active = true;
  is_disabled = false;
  token_version = 0;
  ban_until = none;
  mute_until = none;
}

abbrev pub empty_world : World
empty_world = record {
  users = [];
  relationships = [];
  conversations = [];
  messages = [];
  calls = [];
  reports = [];
  sessions = [];
  cleanup_jobs = [];
  unseen = [];
  keys = [];
  queue = [];
  events = [];
  sessions_down = false;
  now = 0;
  created = 0;
}

-- ===== src/Pop3/Tests.antt =====
-- A small world in which the POP3 commands run: a disk with one file, a peer that reads, and a
-- client who has logged in and has one mail.
mod Commands
mod Mails
mod Logins
mod Sessions
use pdc_pop3d.Prelude.{
  ℕ, ◌≡◌, refl, true, false, none, some, List, [], ◌∷◌, ◌++◌, arith, length, length-replicate,
  replicate, pos,
}
use pdc_pop3d.CString.{codes, crlf}
use pdc_pop3d.Buffer.{Buffer}
use pdc_pop3d.Socket.{Wire, Kernel, max_bytes}
use pdc_pop3d.Global.{User, GlobalConfiguration, GlobalStatistics}
use pdc_pop3d.Pop3.State.{transaction, unchanged, Mail, Connection, Shared, State, DirEntry, Env}
use pdc_pop3d.Pop3.State.Send.{Ready}
use pdc_pop3d.Pop3.Files.{max_emails}
use pdc_pop3d.Pop3.Files.Loading.{FitsArray}
use pdc_pop3d.Pop3.Actions.{no_mail}

abbrev pub reading_peer : Kernel
reading_peer = record { send = λ _ bytes. pos (length bytes); errno = λ _. 0 }

abbrev pub entries : List DirEntry
entries =
    record { d_name = codes "."; is_regular = false }
    ∷ record { d_name = codes "mail"; is_regular = true }
    ∷ []

abbrev pub env : Env (Unit {0})
env = record {
  kernel = reading_peer;
  close = λ _. true;
  access = λ _ _. true;
  remove = λ d _. (true, d);
  rename = λ d _ _. (true, d);
  mkdir = λ d _. (true, d);
  list_dir = λ _ _. some entries;
  file_size = λ _ _. some 4;
  read_file = λ _ _. some (codes ".Hi" ++ crlf);
  shell = λ _ input. some input;
  wake = λ _ h. h;
  calloc = λ _. (true, true);
}

abbrev pub joe : ℕ → User
joe n = record { name = codes "joe"; pass = codes "secret"; semaphore = n }

abbrev pub conf : GlobalConfiguration
conf = record {
  pop3_addr = [];
  pop3_port = 1110;
  conf_addr = [];
  conf_port = 8080;
  users = joe 1 ∷ [];
  buffers_size = 32768;
  logs_folder = codes "logs";
  mailroot_folder = codes "mail";
  maildir_folder = codes "Maildir";
  authorization_token = [];
  transformation = false;
  transformation_script = [];
}

abbrev pub mail : Mail
mail = record {
  index = 1;
  octets = 4;
  filename = codes "mail";
  folder = codes "new";
  status = unchanged;
}

abbrev fresh : Buffer
fresh = record { cells = replicate max_bytes 0; limit = max_bytes; read = 0; write = 0 }

abbrev pub client : Connection
client = record {
  fd = 4;
  mails = mail ∷ replicate 63 no_mail;
  num_emails = 1;
  username = codes "joe";
  status = transaction;
  info_read_buff = fresh;
  info_write_buff = fresh;
}

pub client-FitsArray : FitsArray client
client-FitsArray = record { cells = omega (arith, length-replicate 63 no_mail); room = omega arith }

abbrev pub state : State (Unit {0})
state = record {
  conn = client;
  shared = record {
    conf = conf;
    stats = record { concurrent_clients = 1; total_clients = 1; bytes_transfered = 0 };
    next_index = 1;
    parsers = 0;
    disk = tt;
  };
  wire = record { sent = []; calls = 0; closes = 0 };
}

pub state-Ready : Ready env state
state-Ready = record {
  honest = λ _ bytes. omega arith;
  reading = λ _ bytes h. h;
  fresh = record {
    valid = record {
      read_le = omega arith;
      write_le = omega arith;
      storage = omega (arith, length-replicate {A = ℕ} max_bytes 0);
    };
    read_zero = refl;
    write_zero = refl;
    limit_is = refl;
  };
}

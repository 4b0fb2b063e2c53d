-- ===== src/Otp/Clock.antt =====
-- A calendar without leap seconds or daylight saving, which keeps what dayjs promises.
use system_chat.Base.{◌+◌, ◌-◌, ◌*◌, ◌/◌, refl}
use system_chat.Otp.{Dayjs, unit_length}

abbrev pub plain_calendar : Dayjs
plain_calendar = record {
  add = λ t d. t + d.value * unit_length d.unit;
  diff_seconds = λ t u. (t - u) / 1000;
  add_lem = λ t d. refl;
  diff_seconds_lem = λ t u. refl;
}

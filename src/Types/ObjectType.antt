-- ===== src/Types/ObjectType.antt =====
-- types.go: `ObjectType`: its constants.
pub mod Names
use bacnet_go.Base.{ℕ}

abbrev pub analog_input : ℕ
analog_input = 0

abbrev pub analog_output : ℕ
analog_output = 1

abbrev pub analog_value : ℕ
analog_value = 2

abbrev pub binary_input : ℕ
binary_input = 3

abbrev pub binary_output : ℕ
binary_output = 4

abbrev pub binary_value : ℕ
binary_value = 5

abbrev pub calendar : ℕ
calendar = 6

abbrev pub command : ℕ
command = 7

abbrev pub device : ℕ
device = 8

abbrev pub event_enrollment : ℕ
event_enrollment = 9

abbrev pub file : ℕ
file = 10

abbrev pub group : ℕ
group = 11

abbrev pub loop : ℕ
loop = 12

abbrev pub multi_state_input : ℕ
multi_state_input = 13

abbrev pub multi_state_output : ℕ
multi_state_output = 14

abbrev pub notification_class : ℕ
notification_class = 15

abbrev pub program : ℕ
program = 16

abbrev pub schedule : ℕ
schedule = 17

abbrev pub averaging : ℕ
averaging = 18

abbrev pub multi_state_value : ℕ
multi_state_value = 19

abbrev pub trend_log : ℕ
trend_log = 20

abbrev pub life_safety_point : ℕ
life_safety_point = 21

abbrev pub life_safety_zone : ℕ
life_safety_zone = 22

abbrev pub accumulator : ℕ
accumulator = 23

abbrev pub pulse_converter : ℕ
pulse_converter = 24

abbrev pub event_log : ℕ
event_log = 25

abbrev pub global_group : ℕ
global_group = 26

abbrev pub trend_log_multiple : ℕ
trend_log_multiple = 27

abbrev pub load_control : ℕ
load_control = 28

abbrev pub structured_view : ℕ
structured_view = 29

abbrev pub access_door : ℕ
access_door = 30

abbrev pub timer : ℕ
timer = 31

abbrev pub access_credential : ℕ
access_credential = 32

abbrev pub access_point : ℕ
access_point = 33

abbrev pub access_rights : ℕ
access_rights = 34

abbrev pub access_user : ℕ
access_user = 35

abbrev pub access_zone : ℕ
access_zone = 36

abbrev pub credential_data_input : ℕ
credential_data_input = 37

abbrev pub network_security : ℕ
network_security = 38

abbrev pub bit_string_value : ℕ
bit_string_value = 39

abbrev pub character_string_value : ℕ
character_string_value = 40

abbrev pub date_pattern_value : ℕ
date_pattern_value = 41

abbrev pub date_value : ℕ
date_value = 42

abbrev pub date_time_pattern_value : ℕ
date_time_pattern_value = 43

abbrev pub date_time_value : ℕ
date_time_value = 44

abbrev pub integer_value : ℕ
integer_value = 45

abbrev pub large_analog_value : ℕ
large_analog_value = 46

abbrev pub octet_string_value : ℕ
octet_string_value = 47

abbrev pub positive_integer_value : ℕ
positive_integer_value = 48

abbrev pub time_pattern_value : ℕ
time_pattern_value = 49

abbrev pub time_value : ℕ
time_value = 50

abbrev pub notification_forwarder : ℕ
notification_forwarder = 51

abbrev pub alert_enrollment : ℕ
alert_enrollment = 52

abbrev pub channel : ℕ
channel = 53

abbrev pub lighting_output : ℕ
lighting_output = 54

abbrev pub binary_lighting_output : ℕ
binary_lighting_output = 55

abbrev pub network_port : ℕ
network_port = 56

abbrev pub elevator_group : ℕ
elevator_group = 57

abbrev pub escalator : ℕ
escalator = 58

abbrev pub lift : ℕ
lift = 59
